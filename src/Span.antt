-- ===== src/Span.antt =====
-- `SpanSampleUnderway`: a sample from `B` or `B2` until `A` or `A2`. A time.Time is the number of
-- nanoseconds since the zero time, and a reading of `time.Now` is an argument.
use latlearn.Common.{ℤ, pos, Bytes, Bool, false, [], if◌then◌else◌}
use latlearn.Common.Int.{eqb_ℤ}
use latlearn.Registry.{handle_ssu_a}
use latlearn.State.{Latlearn}

pub record SpanSampleUnderway : Type 0 where
  pub name : Bytes
  pub variant : Bytes
  pub t1 : ℤ
  pub t2 : ℤ
  pub ended : Bool

unfoldable pub before : SpanSampleUnderway → ℤ → SpanSampleUnderway
before ssu now = record ssu { t1 = now }

unfoldable pub ssu_before : Bytes → Bytes → ℤ → SpanSampleUnderway
unfolding before
ssu_before name variant now =
    before (record { name = name; variant = variant; t1 = pos 0; t2 = pos 0; ended = false }) now

unfoldable pub span_b : Bytes → ℤ → SpanSampleUnderway
unfolding ssu_before
span_b name now = ssu_before name [] now

unfoldable pub span_b2 : Bytes → Bytes → ℤ → SpanSampleUnderway
unfolding ssu_before
span_b2 name variant now = ssu_before name variant now

-- `T2` is set unless it has been.
unfoldable pub after : SpanSampleUnderway → ℤ → SpanSampleUnderway
after ssu now = if eqb_ℤ ssu.t2 (pos 0) then record ssu { t2 = now } else ssu

unfoldable pub after_and_update : Latlearn → SpanSampleUnderway → ℤ → Latlearn × Bool
after_and_update l ssu now =
    if l.init_completed
    then (let ssu = after ssu now in
        let (r, ok) = handle_ssu_a l.registry ssu.name ssu.variant ssu.t1 ssu.t2 in
        (record l { registry = r }, ok))
    else (l, false)
