-- ===== src/Server/Controls.antt =====
-- The part of the state that no handler touches, but for its answers, and the answers that a
-- message asks for.
use latlearn.Common.{
  ℕ, zero, suc, ◌≡◌, refl, ◌∙◌, ℤ, Bytes, Bool, true, false, List, [], ◌∷◌, ◌++◌, codes,
  if◌then◌else◌, arith, Bool-cases, inl, inr, Option, none, some, ◌==◌,
}
use mathlib.Core.List.{map}
use latlearn.State.{Latlearn, CommMsg, ReplyMsg}
use latlearn.Span.{SpanSampleUnderway, ssu_before, after_and_update}
use latlearn.Benchmarks.{
  Timed, timed, timed_each, bench_loop, benchmark_exec, benchmark_execs, benchmark_loops,
  benchmark_body, benchmarks_inner, loops, mac_commands,
}
use latlearn.Benchmarks.Samples.{benchmarks_inner_eq}
use latlearn.Server.Handlers.{benchmarks_inner_off}

pub record Control : Type 0 where
  pub comm_outer : List CommMsg
  pub comm_inner : List CommMsg
  pub cap_outer : ℤ
  pub init_once : Bool
  pub init_completed : Bool
  pub serve_started : Bool
  pub serve_finished : Bool
  pub next_chan : ℕ
  pub done_chans : List ℕ
  pub replied : List ℕ

abbrev pub control : Latlearn → Control
control l = record {
  comm_outer = l.comm_outer;
  comm_inner = l.comm_inner;
  cap_outer = l.cap_outer;
  init_once = l.init_once;
  init_completed = l.init_completed;
  serve_started = l.serve_started;
  serve_finished = l.serve_finished;
  next_chan = l.next_chan;
  done_chans = l.done_chans;
  replied = map (λ (answer : ℕ × ReplyMsg). answer.0) l.reply_chans;
}

abbrev pub chans : Option ℕ → List ℕ
chans none = []
chans (some chan) = chan ∷ []

-- The channels at which a message is answered: `done` and `reply_chan`.
unfoldable pub dones : CommMsg → List ℕ
dones msg =
    if msg.ttype == codes "A"
    then []
    else if msg.ttype == codes "values"
    then []
    else if msg.ttype == codes "benchmarks"
    then chans msg.done
    else if msg.ttype == codes "report"
    then chans msg.done
    else []

unfoldable pub replies : CommMsg → List ℕ
replies msg =
    if msg.ttype == codes "A"
    then []
    else if msg.ttype == codes "values"
    then chans msg.reply_chan
    else []

abbrev pub with_answers : Control → List ℕ → List ℕ → Control
with_answers c ds rs = record c { done_chans = ds ++ c.done_chans; replied = rs ++ c.replied }

abbrev pub answered : CommMsg → Control → Control
answered msg c = with_answers c (dones msg) (replies msg)

pub control-after_and_update :
    (l : Latlearn) (ssu : SpanSampleUnderway) (now : ℤ)
    → control (after_and_update l ssu now).0 ≡ control l
unfolding after_and_update
control-after_and_update l ssu now = elim (Bool-cases l.init_completed) [
  | inl e ↦ ground arith
  | inr e ↦ ground arith
]

module _ (clock : ℕ → ℤ) where
  pub control-timed : (span : Bytes) (s : Timed) → control (timed clock span s).0 ≡ control s.0
  unfolding timed
  control-timed span (l, i) =
      control-after_and_update l (ssu_before span [] (clock i)) (clock (suc i))

  pub control-timed_each :
      (spans : List Bytes) (s : Timed) → control (timed_each clock spans s).0 ≡ control s.0
  unfolding timed_each
  control-timed_each [] s = refl
  control-timed_each (span ∷ spans) s =
      control-timed_each spans (timed clock span s) ∙ control-timed span s

  pub control-bench_loop :
      (n : ℕ) (spans : List Bytes) (s : Timed)
      → control (bench_loop clock n spans s).0 ≡ control s.0
  unfolding bench_loop
  control-bench_loop zero spans s = refl
  control-bench_loop (suc n) spans s =
      control-bench_loop n spans (timed_each clock spans s) ∙ control-timed_each spans s

  pub control-loops :
      (ls : List (ℕ × List Bytes)) (s : Timed)
      → control (benchmark_loops clock ls s).0 ≡ control s.0
  unfolding benchmark_loops
  control-loops [] s = refl
  control-loops ((n, spans) ∷ ls) s =
      control-loops ls (bench_loop clock n spans s) ∙ control-bench_loop n spans s

  pub control-execs :
      (subs : List Bytes) (s : Timed) → control (benchmark_execs clock subs s).0 ≡ control s.0
  unfolding benchmark_execs benchmark_exec
  control-execs [] s = refl
  control-execs (sub ∷ subs) s =
      control-execs subs (benchmark_exec clock sub s) ∙ control-bench_loop 1000 _ s

  pub control-body :
      (darwin : Bool) (s : Timed) → control (benchmark_body darwin clock s).0 ≡ control s.0
  unfolding benchmark_body
  control-body true s =
      control-execs mac_commands (benchmark_loops clock loops s) ∙ control-loops loops s
  control-body false s = control-loops loops s

  pub control-benchmarks_inner :
      (darwin : Bool) (l : Latlearn) → control (benchmarks_inner darwin clock l).0 ≡ control l
  control-benchmarks_inner darwin l = elim (Bool-cases l.init_completed) [
    | inl e ↦ rw (benchmarks_inner_eq darwin clock l e) (
        control-after_and_update _ (ssu_before (codes "LL.benchmarks-total") [] (clock 0)) _
        ∙ control-body darwin (record l { benchmarks_started = true }, 1))
    | inr e ↦ rw (benchmarks_inner_off darwin clock l e)
  ]
