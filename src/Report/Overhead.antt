-- ===== src/Report/Overhead.antt =====
-- `overhead_comp`: a metric, less the overhead where that is wanted, and never below 0 then.
use latlearn.Common.{ℕ, suc, ◌-◌, ◌≡◌, ℤ, pos, negsuc, Bool, true, arith, if◌then◌else◌}
use latlearn.Common.Int.{◌≤ℤ◌, max_int64, ◌-ℤ◌, ltb_ℤ, wrap64, Int64, wrap64_id}

unfoldable pub overhead_comp : Bool → ℤ → ℤ → ℤ
overhead_comp should_subtract_overhead metric_in overhead =
    if should_subtract_overhead
    then (let metric_out = wrap64 (metric_in -ℤ overhead) in
        if ltb_ℤ metric_out (pos 0) then pos 0 else metric_out)
    else metric_in

-- An estimate of the overhead, or -1 for none.
abbrev pub IsOverhead : ℤ → Type 0
IsOverhead o = (negsuc 0 ≤ℤ o) × (o ≤ℤ max_int64)

-- With the overhead subtracted, a metric of 0 ns or more and an overhead of 0 ns or more that are
-- int64s give the difference, or 0 where the overhead is the larger.
pub overhead_comp_exact :
    (metric overhead : ℕ)
    → Int64 (pos metric)
    → Int64 (pos overhead)
    → overhead_comp true (pos metric) (pos overhead) ≡ pos (metric - overhead)
unfolding overhead_comp ◌-ℤ◌
overhead_comp_exact metric overhead m o = ground (arith, wrap64_id (pos metric -ℤ pos overhead))

-- With the overhead subtracted, the overhead -1, which stands for none known, adds 1 ns to each
-- metric of 0 ns or more for which the sum is an int64.
pub overhead_comp_unknown :
    (metric : ℕ)
    → Int64 (pos (suc metric))
    → overhead_comp true (pos metric) (negsuc 0) ≡ pos (suc metric)
unfolding overhead_comp ◌-ℤ◌
overhead_comp_unknown metric m = ground (arith, wrap64_id (pos metric -ℤ negsuc 0))
