-- ===== src/Api.antt =====
-- What an application calls: `Init`, `Init2`, `A`, `A2`, `Report`, `Report2`, `Benchmarks`,
-- `Values`, `Overhead`, `Stop` and `Latency_measure_self_sample`.
pub mod Queued
pub mod Sent
pub mod Ending
pub mod Fits
pub mod SelfSample
use latlearn.Common.{
  ℕ, zero, suc, ◌+◌, ℤ, pos, Bytes, Bool, true, false, not, ◌&&◌, ◌||◌, Option, none, some, List,
  [], ◌∷◌, ◌++◌, codes, ◌==◌, if◌then◌else◌, length,
}
use latlearn.Common.Int.{ltb_ℤ, pos_part}
use latlearn.Registry.{init_registry, overhead_span}
use latlearn.State.{Latlearn, CommMsg}
use latlearn.Span.{SpanSampleUnderway, ssu_before, after}

abbrev pub at_least : ℤ → ℤ → ℤ
at_least n capacity = if ltb_ℤ capacity n then n else capacity

-- `init_inner`; the goroutine that it starts is `serve`.
unfoldable pub init_inner : Latlearn → List Bytes → ℤ → Latlearn × Bool
init_inner l spans_app now = if l.init_completed then (l, true) else (
  record l {
    registry = init_registry spans_app;
    outer_queue_capacity = at_least (pos 100) l.outer_queue_capacity;
    inner_queue_capacity = at_least (pos 10) l.inner_queue_capacity;
    cap_outer = at_least (pos 100) l.outer_queue_capacity;
    cap_inner = at_least (pos 10) l.inner_queue_capacity;
    comm_outer = [];
    comm_inner = [];
    init_time = now;
    init_completed = true;
  },
  false,
)

-- `init_oncer.Do`.
unfoldable pub init2 : Latlearn → List Bytes → ℤ → Latlearn
init2 l spans_app now =
    if l.init_once then l else record (init_inner l spans_app now).0 { init_once = true }

unfoldable pub init : Latlearn → ℤ → Latlearn
unfolding init2
init l now = init2 l [] now

-- A message that a call sends, with the fields that it leaves out.
abbrev pub new_msg : Bytes → CommMsg
new_msg ttype = record {
  ttype = ttype;
  params = [];
  name = [];
  variant = [];
  t1 = pos 0;
  t2 = pos 0;
  done = none;
  reply_chan = none;
}

-- `comm_outer <- msg`; `none` where the channel is full, and the caller waits.
unfoldable pub send : Latlearn → CommMsg → Option Latlearn
send l msg =
    if ltb_ℤ (pos (length l.comm_outer)) l.cap_outer
    then some (record l { comm_outer = l.comm_outer ++ msg ∷ [] })
    else none

-- The guard of every call: latlearn is there to answer.
abbrev pub is_open : Latlearn → Bool
is_open l = not (not l.init_completed || l.serve_finished)

-- The state, the sample, and the result of a call that may have to wait (`none`).
unfoldable pub after_and_submit :
    Latlearn → SpanSampleUnderway → ℤ → Option (Latlearn × SpanSampleUnderway × Bool)
after_and_submit l ssu now =
    if is_open l
    then (let ssu = after ssu now in
        elim (send l (record (new_msg (codes "A")) {
          name = ssu.name;
          variant = ssu.variant;
          t1 = ssu.t1;
          t2 = ssu.t2;
        })) [ none ↦ none | some l ↦ some (l, ssu, true) ])
    else some (l, ssu, false)

unfoldable pub ssu_a :
    Latlearn → SpanSampleUnderway → ℤ → Option (Latlearn × SpanSampleUnderway × Bool)
ssu_a l ssu now =
    if ssu.ended then some (l, ssu, false) else after_and_submit l (record ssu { ended = true }) now

-- The variant with which a sample ends: both parts, and a comma between them where there are two.
unfoldable pub end_variant : Bytes → Bytes → Bytes
end_variant begun variant =
    (if not (begun == []) && not (variant == []) then begun ++ codes "," else begun) ++ variant

unfoldable pub ssu_a2 :
    Latlearn → SpanSampleUnderway → Bytes → ℤ → Option (Latlearn × SpanSampleUnderway × Bool)
ssu_a2 l ssu variant now =
    if ssu.ended
    then some (l, ssu, false)
    else after_and_submit l (record ssu { ended = true; variant = end_variant ssu.variant variant })
        now

-- A call that sends a message with a fresh channel for its answer: the state and the channel it
-- then waits at, or no channel where the guard refuses.
unfoldable pub request : Latlearn → (ℕ → CommMsg) → Option (Latlearn × Option ℕ)
request l msg =
    if is_open l
    then (elim (send (record l { next_chan = suc l.next_chan }) (msg l.next_chan)) [
      | none ↦ none
      | some l' ↦ some (l', some l.next_chan)
    ])
    else some (l, none)

unfoldable pub report2 : Latlearn → List Bytes → Option (Latlearn × Option ℕ)
report2 l params =
    request l (λ chan. record (new_msg (codes "report")) { params = params; done = some chan })

unfoldable pub report : Latlearn → Option (Latlearn × Option ℕ)
report l = request l (λ chan. record (new_msg (codes "report")) { done = some chan })

unfoldable pub benchmarks : Latlearn → Option (Latlearn × Option ℕ)
benchmarks l = request l (λ chan. record (new_msg (codes "benchmarks")) { done = some chan })

unfoldable pub call_values : Latlearn → Bytes → Option (Latlearn × Option ℕ)
call_values l span =
    request l (λ chan. record (new_msg (codes "values")) { name = span; reply_chan = some chan })

unfoldable pub overhead : Latlearn → Option (Latlearn × Option ℕ)
unfolding call_values
overhead l = call_values l overhead_span

unfoldable pub stop : Latlearn → Option (Latlearn × Bool)
stop l =
    if is_open l
    then (elim (send l (new_msg (codes "stop"))) [ none ↦ none | some l ↦ some (l, true) ])
    else some (l, false)

-- `Latency_measure_self_sample`, before and after its loop; it aborts at an `A` that is refused.
abbrev pub self_sample_begun : Latlearn → Latlearn
self_sample_begun l = record l {
  overhead_samples_started = true;
  overhead_samples_finished = false;
  overhead_samples_aborted = false;
}

abbrev pub self_sample_ended : Bool → Latlearn → Latlearn
self_sample_ended ok l =
    if ok
    then record l { overhead_samples_finished = true }
    else record l { overhead_samples_finished = true; overhead_samples_aborted = true }

-- The loop with no step of `serve` in between; `clock i` is the `i`th reading of `time.Now`.
unfoldable pub self_sample_loop : (ℕ → ℤ) → ℕ → ℕ → Latlearn → Option (Latlearn × Bool)
self_sample_loop clock zero i l = some (l, true)
self_sample_loop clock (suc n) i l =
    elim (ssu_a l (ssu_before overhead_span [] (clock i)) (clock (suc i))) [
      | none ↦ none
      | some (l, ssu, ok) ↦
          let rest = self_sample_loop clock n (suc (suc i)) l in
          if ok then rest else some (l, false)
    ]

unfoldable pub latency_measure_self_sample : (ℕ → ℤ) → ℤ → Latlearn → Option (Latlearn × Bool)
latency_measure_self_sample clock n l =
    if l.init_completed
    then (let n = if ltb_ℤ n (pos 0) then pos 1_000_000 else n in
        elim (self_sample_loop clock (pos_part n) 0 (self_sample_begun l)) [
          | none ↦ none
          | some (l, ok) ↦ some (self_sample_ended ok l, ok)
        ])
    else some (l, false)
