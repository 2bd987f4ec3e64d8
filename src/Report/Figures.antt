-- ===== src/Report/Figures.antt =====
-- The times that a row of the report shows: their order, and what they are with no estimate of the overhead.
use latlearn.Common.{
  zero, suc, ◌-◌, ◌<◌, ◌≡◌, refl, ℤ, pos, negsuc, Bool, true, false, Bytes, List, ◌∷◌, arith, All,
  All-Member, length, ◌==◌, Bool-cases, inl, inr,
}
use latlearn.Common.Int.{◌≤ℤ◌, ◌+ℤ◌, eqb_ℤ, eqb_ℤ_iff, Int64, half, quot}
use latlearn.Learner.{LatencyLearner, mean}
use latlearn.Learner.Samples.{Summarises, sum}
use latlearn.Learner.Mean.{quot-between}
use latlearn.Registry.{overhead_span}
use latlearn.Report.Overhead.{overhead_comp, IsOverhead, overhead_comp_exact, overhead_comp_unknown}
use latlearn.Report.Row.{row_min, row_last, row_max, row_mean}

-- A duration of 0 ns or more, less than the greatest int64.
abbrev pub IsTime : ℤ → Type 0
IsTime d = (pos 0 ≤ℤ d) × (d ≤ℤ pos (half - 2))

overhead_comp-le :
    (subtract : Bool) (u v o : ℤ)
    → IsTime u
    → IsTime v
    → IsOverhead o
    → u ≤ℤ v
    → overhead_comp subtract u o ≤ℤ overhead_comp subtract v o
overhead_comp-le false u v o tu tv k le = unfold overhead_comp in le
overhead_comp-le true (pos m) (pos n) (pos k) tu tv o le =
    rw
      (
        overhead_comp_exact m k (omega arith, omega arith) (omega arith, omega arith),
        overhead_comp_exact n k (omega arith, omega arith) (omega arith, omega arith),
      )
      (omega arith)
overhead_comp-le true (pos m) (pos n) (negsuc zero) tu tv o le =
    rw
      (
        overhead_comp_unknown m (omega arith, omega arith),
        overhead_comp_unknown n (omega arith, omega arith),
      )
      (omega arith)
overhead_comp-le true (pos m) (pos n) (negsuc (suc k)) tu tv o le = absurd (omega arith)
overhead_comp-le true (negsuc m) v o tu tv k le = absurd (omega arith)
overhead_comp-le true u (negsuc n) o tu tv k le = absurd (omega arith)

-- A time without compensation is at most the same one with the overhead -1.
raised : (subtract : Bool) (v : ℤ) → IsTime v → v ≤ℤ overhead_comp subtract v (negsuc 0)
raised false v t = unfold overhead_comp in omega arith
raised true (pos n) t = rw (overhead_comp_unknown n (omega arith, omega arith)) (omega arith)
raised true (negsuc n) t = absurd (omega arith)

row_min-le :
    (subtract : Bool) (ll : LatencyLearner) (v o : ℤ)
    → (ll.name == overhead_span) ≡ false
    → IsTime ll.min
    → IsTime v
    → IsOverhead o
    → ll.min ≤ℤ v
    → row_min subtract ll o ≤ℤ overhead_comp subtract v o
unfolding row_min
row_min-le subtract ll v o other tm tv k le = elim (Bool-cases (eqb_ℤ o (negsuc 0))) [
  | inl none_known ↦
      rw ((eqb_ℤ_iff o (negsuc 0)).0 none_known) (omega (arith, raised subtract v tv))
  | inr known ↦ rw (known, other) (overhead_comp-le subtract ll.min v o tm tv k le)
]

-- The row of a learner of a span other than LL.no-op, with at least one sample, fewer than 2^63, each of
-- 0 ns or more and less than the greatest int64, whose sum is an int64: whether or not the overhead is
-- subtracted, and for an estimate of -1 or more that is an int64, the least time that is shown is at most
-- the last and the mean, and these are at most the greatest.
pub row_times-ordered :
    (subtract : Bool) (ll : LatencyLearner) (name : Bytes) (d : ℤ) (ds : List ℤ) (o : ℤ)
    → Summarises ll name (d ∷ ds)
    → (name == overhead_span) ≡ false
    → All IsTime (d ∷ ds)
    → length (d ∷ ds) < half
    → Int64 (sum (d ∷ ds))
    → IsOverhead o
    → (row_min subtract ll o ≤ℤ row_last subtract ll o)
      × (row_last subtract ll o ≤ℤ row_max subtract ll o)
      × (row_min subtract ll o ≤ℤ row_mean subtract ll o)
      × (row_mean subtract ll o ≤ℤ row_max subtract ll o)
unfolding row_mean
row_times-ordered subtract ll name d ds o s own times few small known =
    let other : (ll.name == overhead_span) ≡ false = rw s.named own in
    let least = All-Member IsTime ll.min (d ∷ ds) times s.least.0 in
    let greatest = All-Member IsTime ll.max (d ∷ ds) times s.greatest.0 in
    let latest : IsTime ll.last = rw s.latest times.0 in
    let from : ll.min ≤ℤ ll.last = rw s.latest s.least.1.0 in
    let to : ll.last ≤ℤ ll.max = rw s.latest s.greatest.1.0 in
    let (weighed, low, high) = quot-between ll name d ds s few small in
    let middle : IsTime (quot ll.cumul ll.weight) =
      (omega (arith, least.0, low), omega (arith, greatest.1, high)) in
    (
      row_min-le subtract ll ll.last o other least latest known from,
      overhead_comp-le subtract ll.last ll.max o latest greatest known to,
      row_min-le subtract ll (quot ll.cumul ll.weight) o other least middle known low,
      overhead_comp-le subtract (quot ll.cumul ll.weight) ll.max o middle greatest known high,
    )

comp_unknown : (v : ℤ) → IsTime v → overhead_comp true v (negsuc 0) ≡ v +ℤ pos 1
unfolding ◌+ℤ◌
comp_unknown (pos n) t = rw (overhead_comp_unknown n (omega arith, omega arith)) (ground arith)
comp_unknown (negsuc n) t = absurd (omega arith)

-- The row of a learner with at least one sample, fewer than 2^63, each of 0 ns or more and less than the
-- greatest int64, whose sum is an int64: where the overhead is to be subtracted and there is no estimate
-- of it, the least time is shown as it is, but the last, the greatest and the mean 1 ns larger.
pub row_times-unknown :
    (ll : LatencyLearner) (name : Bytes) (d : ℤ) (ds : List ℤ)
    → Summarises ll name (d ∷ ds)
    → All IsTime (d ∷ ds)
    → length (d ∷ ds) < half
    → Int64 (sum (d ∷ ds))
    → (row_min true ll (negsuc 0) ≡ ll.min)
      × (row_last true ll (negsuc 0) ≡ d +ℤ pos 1)
      × (row_max true ll (negsuc 0) ≡ ll.max +ℤ pos 1)
      × (row_mean true ll (negsuc 0) ≡ (mean ll).0 +ℤ pos 1)
unfolding row_mean row_min mean
row_times-unknown ll name d ds s times few small =
    let least = All-Member IsTime ll.min (d ∷ ds) times s.least.0 in
    let greatest = All-Member IsTime ll.max (d ∷ ds) times s.greatest.0 in
    let (weighed, low, high) = quot-between ll name d ds s few small in
    let middle : IsTime (quot ll.cumul ll.weight) =
      (omega (arith, least.0, low), omega (arith, greatest.1, high)) in
    (
      refl,
      rw s.latest (comp_unknown d times.0),
      comp_unknown ll.max greatest,
      rw weighed (comp_unknown (quot ll.cumul ll.weight) middle),
    )
