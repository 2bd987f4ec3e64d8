-- ===== src/Report/Whole.antt =====
-- `report_inner`: the whole report, into the file at `Report_fpath`. `none` is a panic, at a
-- tracked span with no learner.
pub mod Total
pub mod Shown
pub mod Seen
use latlearn.Common.{
  ℕ, ◌+◌, ◌%◌, ℤ, pos, negsuc, Bytes, Bool, true, false, not, ◌&&◌, Option, none, some, List, [],
  ◌∷◌, ◌++◌, codes, eqb, ltb, if◌then◌else◌, length, get_elem?,
}
use latlearn.Common.Int.{ltb_ℤ, eqb_ℤ, pos_part}
use latlearn.Common.Dict.{lookup}
use latlearn.Learner.{LatencyLearner}
use latlearn.Registry.{Registry, get_ll, overhead_span, time_sub}
use latlearn.State.{Latlearn}
use latlearn.Span.{ssu_before, after_and_update}
use latlearn.Report.Text.{sprint_d, sprint_bool, pad_left, pad_right}
use latlearn.Report.Number.{number_grouped}
use latlearn.Report.Row.{row, bar}
use latlearn.Report.Host.{Host, host_lines, has_prefix}

-- `learners[ span].getLL()`, dereferenced; `none` where either fails.
unfoldable pub find_learner : Registry → Bytes → Option LatencyLearner
find_learner r span = elim (lookup span r.learners) [
  | none ↦ none
  | some lli ↦ elim (get_ll lli) [ none ↦ none | some a ↦ get_elem? r.heap a ]
]

-- The overhead to subtract, and whether there is an estimate.
unfoldable pub measure_overhead_estimate : Latlearn → ℤ × Bool
measure_overhead_estimate l =
    if l.init_completed
    then (elim (find_learner l.registry overhead_span) [
      | none ↦ (negsuc 0, false)
      | some ll_noop ↦
          if ll_noop.pair_ever_completed then (ll_noop.min, true) else (negsuc 0, false)
    ])
    else (negsuc 0, false)

-- The context parameters, from index `i` on.
unfoldable pub params_loop : ℕ → List Bytes → Bytes
params_loop i [] = []
params_loop i (param ∷ params) =
    let rest = params_loop (i + 1) params in
    (if eqb i 0 then param else if eqb (i % 4) 0 then codes "\n" ++ param else codes ", " ++ param)
    ++ rest

unfoldable pub params_text : List Bytes → Bytes
unfolding params_loop
params_text params =
    params_loop 0 params ++ ((if ltb 0 (length params) then codes "\n" else []) ++ codes "\n")

-- The length of the longest name, -1 for none: `longest` is the length so far.
unfoldable pub longest_loop : ℤ → List Bytes → ℤ
longest_loop longest [] = longest
longest_loop longest (name ∷ names) =
    let n = pos (length name) in
    longest_loop (if eqb_ℤ longest (negsuc 0) then n else if ltb_ℤ longest n then n else longest)
      names

unfoldable pub header : ℕ → Bytes
header name_field =
    pad_right name_field (codes "span")
    ++ (codes ": "
        ++ (pad_left 15 (codes "min (ns)")
            ++ (bar
                ++ (pad_left 15 (codes "last (ns)")
                    ++ (bar
                        ++ (pad_left 15 (codes "max (ns)")
                            ++ (bar
                                ++ (pad_left 15 (codes "mean (ns)")
                                    ++ (bar
                                        ++ (pad_left 13 (codes "weight (B&As)")
                                            ++ (bar
                                                ++ (pad_left 11 (codes "time frac")
                                                    ++ (bar
                                                        ++ (pad_right 21 (codes "span")
                                                            ++ codes "\n"))))))))))))))

unfoldable pub is_skipped : Latlearn → Bytes → Bool
is_skipped l span = not l.should_report_builtins && has_prefix span (codes "LL.")

-- The rows of the spans, in order.
unfoldable pub rows : Host → Latlearn → ℕ → ℤ → ℤ → List Bytes → Option Bytes
rows h l name_field since_init overhead [] = some []
rows h l name_field since_init overhead (span ∷ spans) =
    let rest = rows h l name_field since_init overhead spans in
    if is_skipped l span then rest else (elim (find_learner l.registry span) [
      | none ↦ none
      | some ll ↦ elim rest [
        | none ↦ none
        | some text ↦
            some (row h.frac l.should_subtract_overhead ll name_field since_init overhead ++ text)
      ]
    ])

-- The lines on the settings and counters of latlearn itself.
unfoldable pub settings_lines : Latlearn → ℤ → Bytes
settings_lines l since_init =
    codes "Latency Report (https://github.com/mkramlich/latlearn)\n\n"
    ++ (codes "Outer_queue_capacity:        "
        ++ (sprint_d l.outer_queue_capacity
            ++ (codes "\nInner_queue_capacity:        "
                ++ (sprint_d l.inner_queue_capacity
                    ++ (codes "\nOverhead_samples_started:    "
                        ++ (sprint_bool l.overhead_samples_started
                            ++ (codes "\nOverhead_samples_finished:   "
                                ++ (sprint_bool l.overhead_samples_finished
                                    ++ (codes "\nOverhead_samples_aborted:    "
                                        ++ (sprint_bool l.overhead_samples_aborted
                                            ++ (codes "\nBenchmarks_started:          "
                                                ++ (sprint_bool l.benchmarks_started
                                                    ++ (codes "\nBenchmarks_finished:         "
                                                        ++ (sprint_bool l.benchmarks_finished
                                                            ++ (codes
                                                            "\nShould_report_builtins:      "
                                                            ++ (sprint_bool l.should_report_builtins
                                                            ++ (codes
                                                            "\nShould_subtract_overhead:    "
                                                            ++ (sprint_bool
                                                            l.should_subtract_overhead
                                                            ++ (codes "\n"
                                                            ++ ((if l.should_subtract_overhead
                                                            then codes
                                                            "metric treated as overhead:  "
                                                            ++ (overhead_span ++ codes ", min\n")
                                                            else [])
                                                            ++ (codes
                                                            "since LL init:               "
                                                            ++ (number_grouped since_init
                                                            (codes ",")
                                                            ++ codes " ns\n\n"))))))))))))))))))))))

-- The text of a report that is written at the time `t2`.
unfoldable pub report_text : Host → Latlearn → List Bytes → ℤ → Option Bytes
report_text h l params t2 =
    let since_init = time_sub t2 l.init_time in
    let longest_name = longest_loop (negsuc 0) l.registry.tracked_spans in
    let name_field = pos_part longest_name in
    let overhead =
      if l.should_subtract_overhead then (measure_overhead_estimate l).0 else negsuc 0 in
    elim (rows h l name_field since_init overhead l.registry.tracked_spans) [
      | none ↦ none
      | some text ↦ some (
          settings_lines l since_init
          ++ (host_lines h ++ (params_text params ++ (header name_field ++ text))))
    ]

-- `clock i` is the `i`th reading of `time.Now`.
unfoldable pub report_inner : Host → (ℕ → ℤ) → Latlearn → List Bytes → Option (Latlearn × Bool)
report_inner h clock l params =
    if l.init_completed
    then (let ssu = ssu_before (codes "LL.lat-report") [] (clock 0) in
        if h.creates l.report_fpath
        then (elim (report_text h l params (clock 1)) [
          | none ↦ none
          | some text ↦ some (
              after_and_update (record l { files = (l.report_fpath, text) ∷ l.files }) ssu
                (clock 2))
        ])
        else some (l, false))
    else some (l, false)
