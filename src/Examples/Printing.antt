-- ===== src/Examples/Printing.antt =====
-- The texts of numbers and reports, on concrete values.
use latlearn.Common.{
  mem, ◌==◌, mem-append, ◌≡◌, refl, sym, ◌∙◌, subst, List, pos, negsuc, Bytes, true, [], ◌∷◌, ◌++◌,
  codes, arith,
}
use latlearn.Common.Int.{◌≤ℤ◌, ◌-ℤ◌, ◌+ℤ◌}
use latlearn.Learner.Samples.{Summarises, record_all, record_all-Summarises}
use latlearn.Registry.{
  Sample, time_sub, run, init_registry, spans_latlearn_builtin, span_key_form, overhead_span,
}
use latlearn.State.{Latlearn}
use latlearn.Registry.Trace.{durations, stats-run-Summarises, run-IsValid, tracked_spans-run}
use latlearn.Registry.Store.{IsValid, stats}
use latlearn.Registry.Init.{init_registry-IsValid}
use latlearn.Report.Number.{number_grouped, reverse_string_array, group_loop}
use latlearn.Report.Number.Thousands.{
  grouped, read_number, number_grouped-grouped, read_number-number_grouped,
}
use latlearn.Report.Number.Sign.{number_grouped-negsuc}
use latlearn.Report.Whole.Shown.{Shows, table, row_of}
use latlearn.Report.Overhead.{IsOverhead}
use latlearn.Report.Columns.{IsAligned}
use latlearn.Report.Columns.Whole.{report_text-IsAligned}
use latlearn.Report.Columns.Read.{row_figures}
use latlearn.Report.Columns.Shown.{ShowsSamples, report_text-ShowsSamples}
use latlearn.Report.Figures.{row_times-ordered, row_times-unknown}
use latlearn.Report.Row.{row_min, row_last, row_max, row_mean}
use latlearn.Learner.{LatencyLearner, new_learner, mean}
use latlearn.Report.Host.{has_prefix, host_lines}
use latlearn.Report.Text.{rune_count, rev_digits, sprint_d, split_chars, join_all}
use latlearn.Report.Whole.{
  is_skipped, settings_lines, params_text, header, measure_overhead_estimate,
}
use latlearn.Report.Whole.Total.{report_overhead, name_width, report_text_rows, find_learner-stats}
use latlearn.Api.{init2, init_inner}
use latlearn.Examples.{load, history, linux, started}

printed_with_spaces : number_grouped (pos 1222333) (codes " ") ≡ codes "1 222 333"
unfolding number_grouped sprint_d split_chars join_all reverse_string_array group_loop
printed_with_spaces = refl

-- A negative number of three digits has a separator behind its sign.
printed_negative : number_grouped (negsuc 122) (codes ",") ≡ codes "-,123"
unfolding number_grouped sprint_d split_chars join_all reverse_string_array group_loop
printed_negative = refl

number_grouped-grouped_example : number_grouped (pos 1222333) (codes ",") ≡ codes "1,222,333"
unfolding grouped rev_digits
number_grouped-grouped_example = number_grouped-grouped 1222333 b','

read_number-number_grouped_example :
    read_number b',' 0 (number_grouped (pos 1222333) (codes ",")) ≡ 1222333
read_number-number_grouped_example = read_number-number_grouped 1222333 b',' (omega arith)

-- A learner of two samples, of 7 ns and then of 15 ns; the estimate of the overhead is 5 ns, or missing.
abbrev loaded : LatencyLearner
loaded = record_all (new_learner load) (pos 15 ∷ pos 7 ∷ [])

row_times-ordered_example :
    (row_min true loaded (pos 5) ≤ℤ row_last true loaded (pos 5))
    × (row_last true loaded (pos 5) ≤ℤ row_max true loaded (pos 5))
    × (row_min true loaded (pos 5) ≤ℤ row_mean true loaded (pos 5))
    × (row_mean true loaded (pos 5) ≤ℤ row_max true loaded (pos 5))
unfolding ◌+ℤ◌ ◌==◌
row_times-ordered_example =
    row_times-ordered true loaded load (pos 15) (pos 7 ∷ []) (pos 5)
      (record_all-Summarises load (pos 15 ∷ pos 7 ∷ [])) refl
      ((omega arith, omega arith), ((omega arith, omega arith), tt)) (omega arith)
      (omega arith, omega arith) (omega arith, omega arith)

row_times-unknown_example :
    (row_min true loaded (negsuc 0) ≡ loaded.min)
    × (row_last true loaded (negsuc 0) ≡ pos 15 +ℤ pos 1)
    × (row_max true loaded (negsuc 0) ≡ loaded.max +ℤ pos 1)
    × (row_mean true loaded (negsuc 0) ≡ (mean loaded).0 +ℤ pos 1)
unfolding ◌+ℤ◌
row_times-unknown_example =
    row_times-unknown loaded load (pos 15) (pos 7 ∷ [])
      (record_all-Summarises load (pos 15 ∷ pos 7 ∷ []))
      ((omega arith, omega arith), ((omega arith, omega arith), tt)) (omega arith)
      (omega arith, omega arith)

started-IsValid : IsValid started.registry
unfolding init2 init_inner
started-IsValid = init_registry-IsValid (load ∷ [])

-- After the two samples of the history.
abbrev sampled : Latlearn
sampled = record started { registry = run (init_registry (load ∷ [])) history }

abbrev sampled_text : Bytes
sampled_text =
    settings_lines sampled (time_sub (pos 99) sampled.init_time)
    ++ (host_lines linux ++ (params_text [] ++ table linux sampled (pos 99)))

sampled-IsValid : IsValid sampled.registry
sampled-IsValid =
    run-IsValid (init_registry (load ∷ [])) history (init_registry-IsValid (load ∷ []))

expected_tracked :
    (k : Bytes)
    → mem k ((load ∷ []) ++ spans_latlearn_builtin) ≡ true
    → mem k sampled.registry.tracked_spans ≡ true
expected_tracked k at =
    let (more, e) = tracked_spans-run (load ∷ []) history in
    rw (e, mem-append k ((load ∷ []) ++ spans_latlearn_builtin) more, at) refl

sampled-Summarises : Summarises (stats sampled.registry load) load (pos 7 ∷ pos 15 ∷ [])
unfolding durations time_sub ◌==◌ span_key_form ◌-ℤ◌ mem spans_latlearn_builtin
sampled-Summarises =
    stats-run-Summarises (load ∷ []) [] history load ((refl, refl), ((refl, refl), tt))

report_text-IsAligned_example :
    (Shows sampled_text (header (name_width sampled))
      × IsAligned (name_width sampled) (header (name_width sampled)))
    × (Shows sampled_text (row_of linux sampled (pos 99) load)
        × IsAligned (name_width sampled) (row_of linux sampled (pos 99) load))
unfolding rune_count mem ◌==◌ spans_latlearn_builtin is_skipped has_prefix ◌+ℤ◌ init2 init_inner
report_text-IsAligned_example =
    report_text-IsAligned linux sampled [] (pos 99) sampled_text load (pos 7 ∷ pos 15 ∷ [])
      sampled-IsValid (report_text_rows linux sampled [] (pos 99) sampled-IsValid)
      (expected_tracked overhead_span refl) (expected_tracked load refl) refl sampled-Summarises
      ((omega arith, omega arith), ((omega arith, omega arith), tt)) (omega arith) (omega arith)
      (omega arith, omega arith) (omega arith, search)

-- The same behind a sample of LL.no-op of 4 ns, with the overhead subtracted.
abbrev compensated_history : List Sample
compensated_history =
    record { name = overhead_span; variant = []; t1 = pos 40; t2 = pos 44 } ∷ history

abbrev compensated : Latlearn
compensated = record started {
  registry = run (init_registry (load ∷ [])) compensated_history;
  should_subtract_overhead = true;
}

compensated-IsValid : IsValid compensated.registry
compensated-IsValid =
    run-IsValid (init_registry (load ∷ [])) compensated_history (init_registry-IsValid (load ∷ []))

compensated_tracked :
    (k : Bytes)
    → mem k ((load ∷ []) ++ spans_latlearn_builtin) ≡ true
    → mem k compensated.registry.tracked_spans ≡ true
compensated_tracked k at =
    let (more, e) = tracked_spans-run (load ∷ []) compensated_history in
    rw (e, mem-append k ((load ∷ []) ++ spans_latlearn_builtin) more, at) refl

compensated-Summarises :
    Summarises (stats compensated.registry load) load (pos 7 ∷ pos 15 ∷ [])
    × Summarises (stats compensated.registry overhead_span) overhead_span (pos 4 ∷ [])
unfolding durations time_sub ◌==◌ span_key_form ◌-ℤ◌ mem spans_latlearn_builtin
compensated-Summarises = (
  stats-run-Summarises (load ∷ []) [] compensated_history load
      ((refl, refl), ((refl, refl), ((refl, refl), tt))),
  stats-run-Summarises (load ∷ []) [] compensated_history overhead_span
      ((refl, refl), ((refl, refl), ((refl, refl), tt))),
)

compensated_overhead : report_overhead compensated ≡ pos 4
unfolding measure_overhead_estimate init2 init_inner mem ◌==◌ spans_latlearn_builtin
compensated_overhead =
    let s = compensated-Summarises.1 in
    let at = compensated_tracked overhead_span refl in
    let known = sym (compensated-IsValid.tracked overhead_span) ∙ at in
    let found = find_learner-stats compensated.registry overhead_span compensated-IsValid known in
    let completed : (stats compensated.registry overhead_span).pair_ever_completed ≡ true =
      s.completed in
    let four : (stats compensated.registry overhead_span).min ≡ pos 4 = ground (arith, s.least.0) in
    rw (found, completed, four) refl

abbrev compensated_text : Bytes
compensated_text =
    settings_lines compensated (time_sub (pos 99) compensated.init_time)
    ++ (host_lines linux ++ (params_text [] ++ table linux compensated (pos 99)))

report_text-ShowsSamples_example :
    Shows compensated_text (row_of linux compensated (pos 99) load)
    × ShowsSamples true
        (report_overhead compensated)
        (pos 7)
        (pos 15 ∷ [])
        (row_figures (name_width compensated) (row_of linux compensated (pos 99) load))
unfolding rune_count mem ◌==◌ spans_latlearn_builtin is_skipped has_prefix ◌+ℤ◌ init2 init_inner
report_text-ShowsSamples_example =
    report_text-ShowsSamples linux compensated [] (pos 99) compensated_text load (pos 7)
      (pos 15 ∷ []) compensated-IsValid
      (report_text_rows linux compensated [] (pos 99) compensated-IsValid)
      (compensated_tracked load refl) refl refl compensated-Summarises.0
      ((omega arith, omega arith), ((omega arith, omega arith), tt)) (omega arith)
      (omega arith, omega arith)
      (subst IsOverhead (sym compensated_overhead) (omega arith, omega arith))

number_grouped-negsuc_example :
    number_grouped (negsuc 122) (codes ",") ≡ b'-' ∷ b',' ∷ number_grouped (pos 123) (codes ",")
unfolding rev_digits
number_grouped-negsuc_example = number_grouped-negsuc 122 b','
