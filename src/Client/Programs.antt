-- ===== src/Client/Programs.antt =====
-- The calls of the interface as programs: `B`, `B2`, `A`, `A2`, `Report`, `Benchmarks`, `Values`,
-- `Stop`, and `Latency_measure_self_sample` with its loop; and the loops of an application.
use latlearn.Common.{
  ℕ, zero, suc, ◌+◌, ◌≡◌, ℤ, pos, Bytes, Bool, true, false, Option, none, some, List, [],
  if◌then◌else◌, ap, ◌∙◌, sym, inl, inr, arith, Option-cases,
}
use latlearn.Common.Int.{ltb_ℤ, pos_part}
use latlearn.Registry.{overhead_span}
use latlearn.State.{ReplyMsg}
use latlearn.Span.{SpanSampleUnderway, ssu_before}
use latlearn.System.{process_start}
use latlearn.Client.{
  now, init_spans, end_span, ask_report, ask_benchmarks, ask_values, ask_stop, is_init_completed,
  begin_self_sample, end_self_sample, Program, returns, calls, call, ◌>>=◌, ◌>>◌, Env, World,
  perform, run,
}
use latlearn.Client.Total.{NoStop, run_calls}

abbrev pub call_init2 : List Bytes → Program (Unit {0})
call_init2 spans_app = call (init_spans spans_app)

abbrev pub call_init : Program (Unit {0})
call_init = call_init2 []

abbrev pub call_b2 : Bytes → Bytes → Program SpanSampleUnderway
call_b2 name variant = do t ← call now; returns (ssu_before name variant t)

abbrev pub call_b : Bytes → Program SpanSampleUnderway
call_b name = call_b2 name []

abbrev pub call_a : SpanSampleUnderway → Program (SpanSampleUnderway × Bool)
call_a ssu = call (end_span none ssu)

abbrev pub call_a2 : SpanSampleUnderway → Bytes → Program (SpanSampleUnderway × Bool)
call_a2 ssu variant = call (end_span (some variant) ssu)

abbrev pub call_report2 : List Bytes → Program Bool
call_report2 params = call (ask_report params)

abbrev pub call_report : Program Bool
call_report = call_report2 []

abbrev pub call_benchmarks : Program Bool
call_benchmarks = call ask_benchmarks

abbrev pub ask_for_values : Bytes → Program (Option ReplyMsg)
ask_for_values span = call (ask_values span)

abbrev pub call_stop : Program Bool
call_stop = call ask_stop

-- `for i := from; i < from + n; i++`.
unfoldable pub for_range : ℕ → ℕ → (ℕ → Program (Unit {0})) → Program (Unit {0})
for_range zero from body = returns tt
for_range (suc n) from body = body from >> for_range n (from + 1) body

unfoldable pub self_sample_rounds : ℕ → Program Bool
self_sample_rounds zero = returns true
self_sample_rounds (suc n) =
    let rest = self_sample_rounds n in
    call_b2 overhead_span [] >>= λ ssu. call_a ssu >>= λ r. if r.1 then rest else returns false

abbrev pub self_sample_count : ℤ → ℤ
self_sample_count n = if ltb_ℤ n (pos 0) then pos 1_000_000 else n

-- `Latency_measure_self_sample` once it has found latlearn initialised, or not.
abbrev pub self_sample_when : ℤ → Bool → Program Bool
self_sample_when n true =
    call begin_self_sample >> self_sample_rounds (pos_part (self_sample_count n)) >>= λ ok.
    call (end_self_sample ok) >> returns ok
self_sample_when n false = returns false

abbrev pub measure_self_sample : ℤ → Program Bool
measure_self_sample n = call is_init_completed >>= self_sample_when n

abbrev pub world_start : World
world_start = record { latlearn = process_start; tick = 0; ended = [] }

-- A sequence of programs runs the one and then the other.
pub run->>= :
    {A B : Type 0} (e : Env) (p : Program A) (f : A → Program B) (w v : World) (a : A)
    → run e p w ≡ some (a, v)
    → run e (p >>= f) w ≡ run e (f a) v
unfolding run
run->>= {A} e (returns b) f w v a q =
    let same : (b, w) ≡ (a, v) = ground arith in ap (λ (r : A × World). run e (f r.0) r.1) same
run->>= e (calls c k) f w v a q = elim (Option-cases (perform e c w)) [
  | inl s ↦ absurd (ground arith)
  | inr ((b, u), s) ↦
      run_calls e c (λ b. k b >>= f) w u b s
      ∙ run->>= e (k b) f u v a (sym (run_calls e c k w u b s) ∙ q)
]

pub NoStop->>= :
    {A B : Type 0} (p : Program A) (f : A → Program B)
    → NoStop p
    → ((a : A) → NoStop (f a))
    → NoStop (p >>= f)
NoStop->>= (returns a) f n k = k a
NoStop->>= (calls c g) f n k = (n.0, λ a. NoStop->>= (g a) f (n.1 a) k)
