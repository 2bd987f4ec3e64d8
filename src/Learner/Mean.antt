-- ===== src/Learner/Mean.antt =====
-- The mean of `latencyLearner.mean` lies between the extremes.
use native.Mathlib.Nat.{le-div_iff_mul-le, div-le_of_le-mul}
use latlearn.Common.{
  ℕ, suc, ◌+◌, ◌*◌, ◌/◌, ◌≤◌, ◌<◌, ◌≡◌, ℤ, pos, negsuc, Bytes, List, [], ◌∷◌, arith, length, All,
  refl, subst, ◌∙◌, true,
}
use latlearn.Common.Int.{
  ◌≤ℤ◌, pos_part, neg_part, +ℤ_parts, wrap64_id, Int64, half, quot, neg_ℕ_parts, ltb_ℤ,
}
use latlearn.Learner.{LatencyLearner, mean}
use latlearn.Learner.Samples.{Summarises, sum}

-- A lower bound of the samples, times their number, is at most their sum; so for an upper bound.
pub sum_ge :
    (m : ℤ) (ds : List ℤ)
    → All (λ x. m ≤ℤ x) ds
    → pos_part m * length ds + neg_part (sum ds) ≤ pos_part (sum ds) + neg_part m * length ds
sum_ge m [] a = omega arith
sum_ge m (d ∷ ds) a = omega (arith, sum_ge m ds a.1, +ℤ_parts (sum ds) d, a.0)

sum_le :
    (m : ℤ) (ds : List ℤ)
    → All (λ x. x ≤ℤ m) ds
    → pos_part (sum ds) + neg_part m * length ds ≤ pos_part m * length ds + neg_part (sum ds)
sum_le m [] a = omega arith
sum_le m (d ∷ ds) a = omega (arith, sum_le m ds a.1, +ℤ_parts (sum ds) d, a.0)

quot_ge :
    (m s : ℤ) (n : ℕ)
    → 0 < n
    → pos_part m * n + neg_part s ≤ pos_part s + neg_part m * n
    → m ≤ℤ quot s (pos n)
unfolding quot
quot_ge (pos m) (pos s) n h p =
    omega (arith, (le-div_iff_mul-le {k = n} {x = m} {y = s} h).1 (omega arith))
quot_ge (negsuc m) (pos s) n h p = omega arith
quot_ge (pos m) (negsuc s) n h p = omega arith
quot_ge (negsuc m) (negsuc s) n h p =
    omega (arith, neg_ℕ_parts (suc s / n), div-le_of_le-mul n {m = suc s} {n = suc m} (omega arith))

quot_le :
    (m s : ℤ) (n : ℕ)
    → 0 < n
    → pos_part s + neg_part m * n ≤ pos_part m * n + neg_part s
    → quot s (pos n) ≤ℤ m
unfolding quot
quot_le (pos m) (pos s) n h p = omega (arith, div-le_of_le-mul n {m = s} {n = m} (omega arith))
quot_le (negsuc m) (pos s) n h p = omega arith
quot_le (pos m) (negsuc s) n h p = omega (arith, neg_ℕ_parts (suc s / n))
quot_le (negsuc m) (negsuc s) n h p = omega (
  arith,
  neg_ℕ_parts (suc s / n),
  (le-div_iff_mul-le {k = n} {x = suc m} {y = suc s} h).1 (omega arith),
)

mean-quot :
    (ll : LatencyLearner) (name : Bytes) (ds : List ℤ)
    → Summarises ll name ds
    → 0 < length ds
    → length ds < half
    → Int64 (sum ds)
    → (mean ll).0 ≡ quot (sum ds) (pos (length ds))
unfolding mean
mean-quot ll name ds s some_ds few fits =
    rw (s.weighed, s.summed, wrap64_id (pos (length ds)) (omega arith), wrap64_id (sum ds) fits)
      (ground arith)

-- The mean of a learner that summarises at least one sample, fewer than 2^63, whose sum is an
-- int64, lies between the learner's least and greatest sample.
pub mean-between :
    (ll : LatencyLearner) (name : Bytes) (d : ℤ) (ds : List ℤ)
    → Summarises ll name (d ∷ ds)
    → length (d ∷ ds) < half
    → Int64 (sum (d ∷ ds))
    → (ll.min ≤ℤ (mean ll).0) × ((mean ll).0 ≤ℤ ll.max)
mean-between ll name d ds s few fits = rw (mean-quot ll name (d ∷ ds) s (omega arith) few fits) (
  quot_ge ll.min (sum (d ∷ ds)) (length (d ∷ ds)) (omega arith) (sum_ge ll.min (d ∷ ds) s.least.1),
  quot_le ll.max (sum (d ∷ ds)) (length (d ∷ ds)) (omega arith)
      (sum_le ll.max (d ∷ ds) s.greatest.1),
)

-- The mean as a report computes it, with the weight for its number of samples.
pub weight-length :
    (ll : LatencyLearner) (name : Bytes) (ds : List ℤ)
    → Summarises ll name ds
    → length ds < half
    → ll.weight ≡ pos (length ds)
weight-length ll name ds s few = s.weighed ∙ wrap64_id (pos (length ds)) (omega arith, omega arith)

pub quot-between :
    (ll : LatencyLearner) (name : Bytes) (d : ℤ) (ds : List ℤ)
    → Summarises ll name (d ∷ ds)
    → length (d ∷ ds) < half
    → Int64 (sum (d ∷ ds))
    → (ltb_ℤ (pos 0) ll.weight ≡ true)
      × (ll.min ≤ℤ quot ll.cumul ll.weight)
      × (quot ll.cumul ll.weight ≤ℤ ll.max)
quot-between ll name d ds s few fits =
    let weighed : ltb_ℤ (pos 0) ll.weight ≡ true =
      rw (weight-length ll name (d ∷ ds) s few) (ground arith) in
    let mean_is : (mean ll).0 ≡ quot ll.cumul ll.weight = unfold mean in rw weighed refl in
    let (low, high) =
      subst (λ m. (ll.min ≤ℤ m) × (m ≤ℤ ll.max)) mean_is (mean-between ll name d ds s few fits) in
    (weighed, low, high)
