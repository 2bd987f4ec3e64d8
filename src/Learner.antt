-- ===== src/Learner.antt =====
-- The statistics of one span: `latencyLearner` of latlearn/latlearn.go, with its methods `after2`,
-- `mean` and `values`. A time.Duration is an int64 of nanoseconds, and `Weight` is a 64-bit int.
pub mod Samples
pub mod Mean
use latlearn.Common.{ℤ, pos, negsuc, Bytes, Bool, true, false, if◌then◌else◌}
use latlearn.Common.Int.{◌+ℤ◌, ltb_ℤ, wrap64, quot}

pub record LatencyLearner : Type 0 where
  pub name : Bytes
  pub last : ℤ
  pub cumul : ℤ
  pub weight : ℤ
  pub min : ℤ
  pub max : ℤ
  pub pair_underway : Bool
  pub pair_ever_completed : Bool

-- `new( latencyLearner)` with its name set.
unfoldable pub new_learner : Bytes → LatencyLearner
new_learner span = record {
  name = span;
  last = pos 0;
  cumul = pos 0;
  weight = pos 0;
  min = pos 0;
  max = pos 0;
  pair_underway = false;
  pair_ever_completed = false;
}

-- One more sample, of length `dur`.
unfoldable pub after2 : LatencyLearner → ℤ → LatencyLearner
after2 ll dur = record {
  name = ll.name;
  last = dur;
  cumul = wrap64 (ll.cumul +ℤ dur);
  weight = wrap64 (ll.weight +ℤ pos 1);
  min = if ll.pair_ever_completed then (if ltb_ℤ dur ll.min then dur else ll.min) else dur;
  max = if ll.pair_ever_completed then (if ltb_ℤ ll.max dur then dur else ll.max) else dur;
  pair_underway = false;
  pair_ever_completed = true;
}

-- The mean, -1 where there is no weight, and the weight.
unfoldable pub mean : LatencyLearner → ℤ × ℤ
mean ll = (if ltb_ℤ (pos 0) ll.weight then quot ll.cumul ll.weight else negsuc 0, ll.weight)

-- The results of `values`, in the source's order.
pub record Values : Type 0 where
  pub name : Bytes
  pub pair_ever_completed : Bool
  pub min : ℤ
  pub last : ℤ
  pub max : ℤ
  pub mean : ℤ
  pub cumul : ℤ
  pub weight : ℤ

unfoldable pub values : LatencyLearner → Values
unfolding mean
values ll =
    let (m, w) = mean ll in
    record {
      name = ll.name;
      pair_ever_completed = ll.pair_ever_completed;
      min = ll.min;
      last = ll.last;
      max = ll.max;
      mean = m;
      cumul = ll.cumul;
      weight = w;
    }
