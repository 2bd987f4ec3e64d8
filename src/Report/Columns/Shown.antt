-- ===== src/Report/Columns/Shown.antt =====
-- What the row of a report shows of the samples of its span.
use latlearn.Common.{
  ℕ, zero, suc, ◌-◌, ◌/◌, ◌≤◌, ◌<◌, ◌≡◌, refl, ap, ◌∙◌, ℤ, pos, negsuc, Bytes, Bool, true, false,
  some, List, [], ◌∷◌, ◌++◌, ◌==◌, codes, arith, All, All-weaker, All-Member, subst, length, mem,
}
use latlearn.Common.Int.{◌≤ℤ◌, ltb_ℤ, eqb_ℤ, Int64, half, quot, pos_part, wrap64_id}
use latlearn.Learner.{LatencyLearner}
use latlearn.Learner.Samples.{Summarises, sum, IsLeast, IsGreatest}
use latlearn.Learner.Mean.{sum_ge, weight-length, quot-between}
use latlearn.Registry.{overhead_span, time_sub}
use latlearn.Registry.Store.{IsValid, stats}
use latlearn.State.{Latlearn}
use latlearn.Report.Host.{Host}
use latlearn.Report.Text.{rune_count, pad_left, pad_right}
use latlearn.Report.Overhead.{overhead_comp, IsOverhead, overhead_comp_exact, overhead_comp_unknown}
use latlearn.Report.Number.{number_grouped}
use latlearn.Report.Row.{row, row_completed, row_min, row_last, row_max, row_mean, comma, bar}
use latlearn.Report.Figures.{IsTime}
use latlearn.Report.Whole.{is_skipped, report_text}
use latlearn.Report.Whole.Total.{name_width, report_overhead}
use latlearn.Report.Whole.Shown.{Shows, row_of, report_text-Shows}
use latlearn.Report.Columns.{rune_count-pad_right, first}
use latlearn.Report.Columns.Whole.{name-fits}
use latlearn.Report.Columns.Read.{
  IsNumber, number_grouped-IsNumber, pad_left-IsNumber, row_figures, line-figures, named-figures,
  figures,
}

-- A time as it is shown: as it is, less the overhead but not below 0, or 1 ns more with no estimate of it.
abbrev pub shown : Bool → ℤ → ℕ → ℕ
shown false o n = n
shown true (pos k) n = n - k
shown true (negsuc k) n = suc n

-- The least time is shown as it is with no estimate.
abbrev pub shown_least : Bool → ℤ → ℕ → ℕ
shown_least false o n = n
shown_least true (pos k) n = n - k
shown_least true (negsuc k) n = n

overhead_comp-shown :
    (subtract : Bool) (o : ℤ) (n : ℕ)
    → IsTime (pos n)
    → IsOverhead o
    → overhead_comp subtract (pos n) o ≡ pos (shown subtract o n)
overhead_comp-shown false o n t k = unfold overhead_comp in refl
overhead_comp-shown true (pos k) n t h =
    overhead_comp_exact n k (omega arith, omega arith) (omega arith, omega arith)
overhead_comp-shown true (negsuc zero) n t h = overhead_comp_unknown n (omega arith, omega arith)
overhead_comp-shown true (negsuc (suc k)) n t h = absurd (omega arith)

row_min-shown :
    (subtract : Bool) (ll : LatencyLearner) (o : ℤ) (n : ℕ)
    → (ll.name == overhead_span) ≡ false
    → ll.min ≡ pos n
    → IsTime (pos n)
    → IsOverhead o
    → row_min subtract ll o ≡ pos (shown_least subtract o n)
unfolding row_min
row_min-shown false ll o n other e t h = unfold overhead_comp in ground arith
row_min-shown true ll (pos k) n other e t h =
    let known : eqb_ℤ (pos k) (negsuc 0) ≡ false = ground arith in
    rw (known, other, e)
      (overhead_comp_exact n k (omega arith, omega arith) (omega arith, omega arith))
row_min-shown true ll (negsuc zero) n other e t h = e
row_min-shown true ll (negsuc (suc k)) n other e t h = absurd (omega arith)

of_time : (v : ℤ) → IsTime v → v ≡ pos (pos_part v)
of_time (pos n) t = refl
of_time (negsuc n) t = absurd (omega arith)

value-IsNumber : (v : ℤ) (n : ℕ) → v ≡ pos n → IsNumber n (number_grouped v comma)
value-IsNumber v n e = rw e (number_grouped-IsNumber n)

column-IsNumber :
    (v : ℤ) (n : ℕ) → v ≡ pos n → IsNumber n (pad_left 15 (pad_left 15 (number_grouped v comma)))
column-IsNumber v n e = pad_left-IsNumber n 15 _ (pad_left-IsNumber n 15 _ (value-IsNumber v n e))

-- The figures of the samples: the least, the last and the greatest, their mean and their number.
abbrev pub ShowsSamples : Bool → ℤ → ℤ → List ℤ → List ℕ → Type 0
ShowsSamples subtract o d ds vs =
    (least : ℕ) × (greatest : ℕ) × IsLeast (pos least) (d ∷ ds)
    × IsGreatest (pos greatest) (d ∷ ds)
    × (vs
        ≡ shown_least subtract o least
          ∷ shown subtract o (pos_part d)
          ∷ shown subtract o greatest
          ∷ shown subtract o (pos_part (sum (d ∷ ds)) / length (d ∷ ds))
          ∷ length (d ∷ ds)
          ∷ [])

sum_positive : (ds : List ℤ) → All IsTime ds → Int64 (sum ds) → sum ds ≡ pos (pos_part (sum ds))
sum_positive ds times small =
    let low = sum_ge (pos 0) ds (All-weaker IsTime (λ x. pos 0 ≤ℤ x) ds (λ x t. t.0) times) in
    of_nat (sum ds) (omega (arith, low))
  where
    of_nat : (v : ℤ) → pos 0 ≤ℤ v → v ≡ pos (pos_part v)
    of_nat (pos n) h = refl
    of_nat (negsuc n) h = absurd (omega arith)

row-newline :
    (frac : ℤ → ℤ → Bytes) (subtract : Bool) (ll : LatencyLearner) (n : ℕ) (since_init o : ℤ)
    → ll.pair_ever_completed ≡ true
    → row frac subtract ll n since_init o
      ≡ row_completed frac subtract ll n since_init o ++ codes "\n"
unfolding row
row-newline frac subtract ll n since_init o done = ground arith

-- The columns of a completed row.
completed-figures :
    (frac : ℤ → ℤ → Bytes) (subtract : Bool) (ll : LatencyLearner) (n : ℕ) (since_init o : ℤ)
    (va vb vc vd vw : ℕ)
    → rune_count ll.name ≤ n
    → row_min subtract ll o ≡ pos va
    → row_last subtract ll o ≡ pos vb
    → row_max subtract ll o ≡ pos vc
    → row_mean subtract ll o ≡ pos vd
    → ll.weight ≡ pos (suc vw)
    → row_figures n (row_completed frac subtract ll n since_init o ++ codes "\n")
      ≡ va ∷ vb ∷ vc ∷ vd ∷ suc vw ∷ []
unfolding row_completed
completed-figures frac subtract ll n since_init o va vb vc vd vw w ea eb ec ed ew =
    let weighed : ltb_ℤ (pos 0) ll.weight ≡ true = rw ew (ground arith) in
    let rest : Bytes = pad_left 8 (frac ll.cumul since_init) ++ (bar ++ pad_right 21 ll.name) in
    let times : ℤ → Bytes = λ v. pad_left 15 (pad_left 15 (number_grouped v comma)) in
    let mean_txt : Bytes = pad_left 15 (number_grouped (row_mean subtract ll o) comma) in
    let weight_txt : Bytes = pad_left 11 (number_grouped ll.weight comma) in
    let t : Bytes =
      times (row_min subtract ll o)
      ++ (bar
          ++ (times (row_last subtract ll o)
              ++ (bar
                  ++ (times (row_max subtract ll o)
                      ++ (bar
                          ++ (mean_txt
                              ++ (codes " | w "
                                  ++ (weight_txt ++ (codes " | tf " ++ rest))))))))) in
    let vs : List ℕ = va ∷ vb ∷ vc ∷ vd ∷ suc vw ∷ [] in
    let read : first 5 (figures 0 t) ≡ vs = line-figures va vb vc vd (suc vw) _ _ _ _ _ rest (
      column-IsNumber (row_min subtract ll o) va ea,
      column-IsNumber (row_last subtract ll o) vb eb,
      column-IsNumber (row_max subtract ll o) vc ec,
      pad_left-IsNumber vd 15 _ (value-IsNumber (row_mean subtract ll o) vd ed),
      pad_left-IsNumber (suc vw) 11 _ (value-IsNumber ll.weight (suc vw) ew),
    ) in
    rw weighed (
      subst (λ k. row_figures k ((pad_right n ll.name ++ (codes ": " ++ t)) ++ codes "\n") ≡ vs)
        (rune_count-pad_right n ll.name w)
        (named-figures (pad_right n ll.name) t (codes "\n") vs read refl))

row-figures :
    (frac : ℤ → ℤ → Bytes) (subtract : Bool) (ll : LatencyLearner) (name : Bytes) (d : ℤ)
    (ds : List ℤ) (n : ℕ) (since_init o : ℤ)
    → Summarises ll name (d ∷ ds)
    → (name == overhead_span) ≡ false
    → rune_count name ≤ n
    → All IsTime (d ∷ ds)
    → length (d ∷ ds) < half
    → Int64 (sum (d ∷ ds))
    → IsOverhead o
    → ShowsSamples subtract o d ds (row_figures n (row frac subtract ll n since_init o))
unfolding row_mean quot
row-figures frac subtract ll name d ds n since_init o s own w times few small known =
    let least = All-Member IsTime ll.min (d ∷ ds) times s.least.0 in
    let greatest = All-Member IsTime ll.max (d ∷ ds) times s.greatest.0 in
    let min_is = of_time ll.min least in
    let max_is = of_time ll.max greatest in
    let last_is : ll.last ≡ pos (pos_part d) = s.latest ∙ of_time d times.0 in
    let weight = weight-length ll name (d ∷ ds) s few in
    let sum_is = sum_positive (d ∷ ds) times small in
    let cumul : ll.cumul ≡ pos (pos_part (sum (d ∷ ds))) =
      s.summed ∙ wrap64_id (sum (d ∷ ds)) small ∙ sum_is in
    let mean_is : quot ll.cumul ll.weight ≡ pos (pos_part (sum (d ∷ ds)) / length (d ∷ ds)) =
      rw (cumul, weight) refl in
    let (weighed, low, high) = quot-between ll name d ds s few small in
    let middle : IsTime (quot ll.cumul ll.weight) =
      (omega (arith, least.0, low), omega (arith, greatest.1, high)) in
    let other : (ll.name == overhead_span) ≡ false = rw s.named own in
    let times_of = λ (v : ℤ) (k : ℕ) (e : v ≡ pos k) (t : IsTime v).
      ap (λ u. overhead_comp subtract u o) e
      ∙ overhead_comp-shown subtract o k (subst IsTime e t) known in
    (
      pos_part ll.min,
      pos_part ll.max,
      subst (λ v. IsLeast v (d ∷ ds)) min_is s.least,
      subst (λ v. IsGreatest v (d ∷ ds)) max_is s.greatest,
      ap (row_figures n) (row-newline frac subtract ll n since_init o s.completed)
          ∙ completed-figures frac subtract ll n since_init o _ _ _ _ (length ds) (rw s.named w)
              (row_min-shown subtract ll o (pos_part ll.min) other min_is
                (subst IsTime min_is least) known)
              (times_of ll.last (pos_part d) last_is (rw s.latest times.0))
              (times_of ll.max (pos_part ll.max) max_is greatest)
              (times_of (quot ll.cumul ll.weight) _ mean_is middle) weight,
    )

-- In the text of a report on a valid registry, the row of a tracked span that is not skipped and is not
-- LL.no-op shows what its samples are: the numbers that a reader finds in its columns, behind the name
-- field, are the least, the last and the greatest of the samples and the truncated quotient of their sum
-- by their number, each as it is or, where the overhead is subtracted, less the estimate of the overhead
-- but not below 0, and then the number of the samples. With the estimate missing (-1) the least is shown as
-- it is and the other three times with 1 ns more. The span has a sample, fewer than 2^63 of them, each of
-- 0 ns to 2^63 - 2 ns, whose sum is an int64, and the estimate is an int64 of -1 or more.
pub report_text-ShowsSamples :
    (h : Host) (l : Latlearn) (params : List Bytes) (t2 : ℤ) (text span : Bytes) (d : ℤ)
    (ds : List ℤ)
    → IsValid l.registry
    → report_text h l params t2 ≡ some text
    → mem span l.registry.tracked_spans ≡ true
    → is_skipped l span ≡ false
    → (span == overhead_span) ≡ false
    → Summarises (stats l.registry span) span (d ∷ ds)
    → All IsTime (d ∷ ds)
    → length (d ∷ ds) < half
    → Int64 (sum (d ∷ ds))
    → IsOverhead (report_overhead l)
    → Shows text (row_of h l t2 span)
      × ShowsSamples l.should_subtract_overhead
          (report_overhead l)
          d
          ds
          (row_figures (name_width l) (row_of h l t2 span))
report_text-ShowsSamples h l params t2 text span d ds v e at shown own s times few small known = (
  report_text-Shows h l params t2 text span v e at shown,
  row-figures h.frac l.should_subtract_overhead (stats l.registry span) span d ds (name_width l)
      (time_sub t2 l.init_time) (report_overhead l) s own (name-fits l span at) times few small
      known,
)
