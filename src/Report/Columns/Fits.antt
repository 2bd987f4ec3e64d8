-- ===== src/Report/Columns/Fits.antt =====
-- The width of the figures of a learner, for the columns of the report.
use latlearn.Common.{
  ℕ, ◌-◌, ◌^◌, ◌<◌, ◌≡◌, refl, Bytes, Bool, true, false, List, ◌∷◌, arith, ℤ, pos, negsuc, All,
  length, inl, inr, Bool-cases, All-Member, not, ◌&&◌, ◌==◌, if◌then◌else◌,
}
use latlearn.Common.Int.{◌-ℤ◌, ◌≤ℤ◌, int_laws, ltb_ℤ, Int64, wrap64, wrap64_id, quot, eqb_ℤ}
use latlearn.Learner.{LatencyLearner}
use latlearn.Learner.Samples.{Summarises, sum}
use latlearn.Learner.Mean.{weight-length, quot-between}
use latlearn.Report.Overhead.{overhead_comp, IsOverhead}
use latlearn.Registry.{overhead_span}
use latlearn.Report.Number.{number_grouped}
use latlearn.Report.Row.{row_min, row_mean, comma}
use latlearn.Report.Columns.{IsIn}
use latlearn.Report.Columns.Numbers.{time-IsIn, weight-IsIn}
use latlearn.Report.Columns.Rows.{Fits}

-- A duration that a column shows, whatever the overhead.
abbrev pub IsShort : ℤ → Type 0
IsShort d = (pos 0 ≤ℤ d) × (d ≤ℤ pos (10 ^ 12 - 2))

abbrev IsShown : ℤ → Type 0
IsShown v = (k : ℕ) × (k < 10 ^ 12) × (v ≡ pos k)

overhead_comp-IsShown :
    (subtract : Bool) (d o : ℤ) → IsShort d → IsOverhead o → IsShown (overhead_comp subtract d o)
unfolding overhead_comp
overhead_comp-IsShown false (pos d) o s k = (d, omega arith, refl)
overhead_comp-IsShown false (negsuc d) o s k = absurd (omega arith)
overhead_comp-IsShown true d o s k =
    let e : wrap64 (d -ℤ o) ≡ d -ℤ o = wrap64_id (d -ℤ o) (omega int_laws, omega int_laws) in
    rw e (clipped (d -ℤ o) (omega int_laws))
  where
    clipped : (v : ℤ) → v ≤ℤ pos (10 ^ 12 - 1) → IsShown (if ltb_ℤ v (pos 0) then pos 0 else v)
    clipped (pos v) h = (v, omega arith, ground arith)
    clipped (negsuc v) h = (0, omega arith, ground arith)

shown-IsIn : (v : ℤ) → IsShown v → IsIn 15 (number_grouped v comma)
shown-IsIn v (k, small, e) = rw e (time-IsIn k small)

row_min-IsShown :
    (subtract : Bool) (ll : LatencyLearner) (o : ℤ)
    → IsShort ll.min
    → IsOverhead o
    → IsShown (row_min subtract ll o)
unfolding row_min overhead_comp
row_min-IsShown subtract ll o s k =
    elim (Bool-cases (not (eqb_ℤ o (negsuc 0)) && not (ll.name == overhead_span))) [
      | inl on ↦ rw on (overhead_comp-IsShown subtract ll.min o s k)
      | inr off ↦ rw off (overhead_comp-IsShown false ll.min o s k)
    ]

-- A learner that summarises samples of less than 1,000 s, fewer than 10^9, whose sum is an int64.
pub Summarises-Fits :
    (frac : ℤ → ℤ → Bytes) (subtract : Bool) (ll : LatencyLearner) (name : Bytes) (d : ℤ)
    (ds : List ℤ) (since_init o : ℤ)
    → Summarises ll name (d ∷ ds)
    → All IsShort (d ∷ ds)
    → length (d ∷ ds) < 10 ^ 9
    → Int64 (sum (d ∷ ds))
    → IsOverhead o
    → IsIn 8 (frac ll.cumul since_init)
    → Fits frac subtract ll since_init o × (ltb_ℤ (pos 0) ll.weight ≡ true)
unfolding row_mean
Summarises-Fits frac subtract ll name d ds since_init o s short few small known narrow =
    let n : ℕ = length (d ∷ ds) in
    let weight = weight-length ll name (d ∷ ds) s (omega arith) in
    let least = All-Member IsShort ll.min (d ∷ ds) short s.least.0 in
    let greatest = All-Member IsShort ll.max (d ∷ ds) short s.greatest.0 in
    let (weighed, low, high) = quot-between ll name d ds s (omega arith) small in
    let mean_short : IsShort (quot ll.cumul ll.weight) =
      (omega (arith, least.0, low), omega (arith, greatest.1, high)) in
    let in_time = λ (v : ℤ) (p : IsShort v).
      shown-IsIn (overhead_comp subtract v o) (overhead_comp-IsShown subtract v o p known) in
    (
      record {
        least = shown-IsIn (row_min subtract ll o) (row_min-IsShown subtract ll o least known);
        latest = in_time ll.last (rw s.latest short.0);
        greatest = in_time ll.max greatest;
        mean = in_time (quot ll.cumul ll.weight) mean_short;
        weight = rw weight (weight-IsIn n few);
        fraction = narrow;
      },
      weighed,
    )
