-- ===== src/Report/Whole/Total.antt =====
-- A report is written, with a row for each span that it does not skip.
use latlearn.Common.{
  ℕ, ◌≡◌, refl, sym, ◌∙◌, inl, inr, ℤ, negsuc, Bytes, Bool, true, some, List, [], ◌∷◌, ◌++◌, codes,
  ==_refl, if◌then◌else◌, get_elem?, arith, All, mem, is_some, Option-cases,
}
use latlearn.Common.Int.{pos_part}
use latlearn.Common.Dict.{lookup}
use latlearn.Learner.{LatencyLearner}
use latlearn.Registry.{Registry, LearnerRef, get_ll, time_sub}
use latlearn.Registry.Store.{IsValid, stats}
use latlearn.Registry.Fetch.{entry_pointer}
use latlearn.State.{Latlearn}
use latlearn.Span.{ssu_before, after_and_update}
use latlearn.Report.Host.{Host, host_lines}
use latlearn.Report.Row.{row}
use latlearn.Report.Whole.{
  find_learner, is_skipped, rows, report_text, report_inner, settings_lines, params_text, header,
  longest_loop, measure_overhead_estimate,
}

-- A span with an entry has a learner, that of its statistics.
pub find_learner-stats :
    (r : Registry) (span : Bytes)
    → IsValid r
    → is_some (lookup span r.learners) ≡ true
    → find_learner r span ≡ some (stats r span)
find_learner-stats r span v known = elim (Option-cases (lookup span r.learners)) [
  | inl e ↦ ground arith
  | inr (ref, e) ↦ go ref e (entry_pointer r span ref v e)
]
  where
    go :
        (ref : LearnerRef)
        → lookup span r.learners ≡ some ref
        → (a : ℕ) × (ll : LatencyLearner) × (get_ll ref ≡ some a) × (get_elem? r.heap a ≡ some ll)
        → find_learner r span ≡ some (stats r span)
    go ref e (a, ll, p, shown) = unfold find_learner stats in ground arith

-- The rows of the spans that are not skipped.
unfoldable pub visible_rows : Host → Latlearn → ℕ → ℤ → ℤ → List Bytes → Bytes
visible_rows h l name_field since_init overhead [] = []
visible_rows h l name_field since_init overhead (span ∷ spans) =
    let rest = visible_rows h l name_field since_init overhead spans in
    if is_skipped l span
    then rest
    else row h.frac l.should_subtract_overhead (stats l.registry span) name_field since_init
        overhead
      ++ rest

rows-visible_rows :
    (h : Host) (l : Latlearn) (name_field : ℕ) (since_init overhead : ℤ) (spans : List Bytes)
    → IsValid l.registry
    → All (λ s. is_some (lookup s l.registry.learners) ≡ true) spans
    → rows h l name_field since_init overhead spans
      ≡ some (visible_rows h l name_field since_init overhead spans)
unfolding rows visible_rows
rows-visible_rows h l n si o [] v known = refl
rows-visible_rows h l n si o (span ∷ spans) v known = ground (
  arith,
  find_learner-stats l.registry span v known.0,
  rows-visible_rows h l n si o spans v known.1,
)

mem-All :
    (xs ys : List Bytes) (f : Bytes → Bool)
    → ((k : Bytes) → mem k ys ≡ f k)
    → All (λ k. mem k ys ≡ true) xs
    → All (λ k. f k ≡ true) xs
mem-All [] ys f h a = tt
mem-All (x ∷ xs) ys f h a = (sym (h x) ∙ a.0, mem-All xs ys f h a.1)

All-cons :
    (x : Bytes) (xs zs : List Bytes)
    → All (λ k. mem k xs ≡ true) zs
    → All (λ k. mem k (x ∷ xs) ≡ true) zs
unfolding mem
All-cons x xs [] a = tt
All-cons x xs (z ∷ zs) a = (ground (arith, a.0), All-cons x xs zs a.1)

All-mem : (xs : List Bytes) → All (λ k. mem k xs ≡ true) xs
All-mem [] = tt
All-mem (x ∷ xs) = (first, All-cons x xs xs (All-mem xs))
  where
    first : mem x (x ∷ xs) ≡ true
    first = unfold mem in ground (arith, ==_refl x)

-- In a valid registry the rows of the tracked spans are all found: the report needs no guard.
pub rows-tracked_spans :
    (h : Host) (l : Latlearn) (name_field : ℕ) (since_init overhead : ℤ)
    → IsValid l.registry
    → rows h l name_field since_init overhead l.registry.tracked_spans
      ≡ some (visible_rows h l name_field since_init overhead l.registry.tracked_spans)
rows-tracked_spans h l n si o v = rows-visible_rows h l n si o l.registry.tracked_spans v (
    mem-All l.registry.tracked_spans l.registry.tracked_spans
      (λ k. is_some (lookup k l.registry.learners)) v.tracked (All-mem l.registry.tracked_spans))

-- The overhead that a report subtracts.
abbrev pub report_overhead : Latlearn → ℤ
report_overhead l = if l.should_subtract_overhead then (measure_overhead_estimate l).0 else negsuc 0

abbrev pub name_width : Latlearn → ℕ
name_width l = pos_part (longest_loop (negsuc 0) l.registry.tracked_spans)

-- On a valid registry the text of a report is there: after its head it has the header and one row
-- for each tracked span that is not skipped, in their order, with the statistics of that span.
pub report_text_rows :
    (h : Host) (l : Latlearn) (params : List Bytes) (t2 : ℤ)
    → IsValid l.registry
    → report_text h l params t2
      ≡ some (
          settings_lines l (time_sub t2 l.init_time)
          ++ (host_lines h
              ++ (params_text params
                  ++ (header (name_width l)
                      ++ visible_rows h l
                          (name_width l)
                          (time_sub t2 l.init_time)
                          (report_overhead l)
                          l.registry.tracked_spans))))
unfolding report_text
report_text_rows h l params t2 v =
    ground
      (arith, rows-tracked_spans h l (name_width l) (time_sub t2 l.init_time) (report_overhead l) v)

-- On a valid registry, where latlearn is initialised and the file can be created, `report_inner`
-- does not panic: it writes its text there, and then ends its own sample of LL.lat-report.
pub report_inner_total :
    (h : Host) (clock : ℕ → ℤ) (l : Latlearn) (params : List Bytes)
    → IsValid l.registry
    → l.init_completed ≡ true
    → h.creates l.report_fpath ≡ true
    → (text : Bytes) × (report_text h l params (clock 1) ≡ some text)
      × (report_inner h clock l params
          ≡ some (
              after_and_update
                (record l { files = (l.report_fpath, text) ∷ l.files })
                (ssu_before (codes "LL.lat-report") [] (clock 0))
                (clock 2)))
unfolding report_inner
report_inner_total h clock l params v done creates =
    let e = report_text_rows h l params (clock 1) v in (_, e, ground arith)
