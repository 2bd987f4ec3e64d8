-- ===== src/Server/Effect.antt =====
-- What a round of `serve` adds to the statistics: the sample of an "A" message, and latlearn's own.
use latlearn.Common.{
  ℕ, ◌≡◌, refl, subst, ◌∙◌, inl, inr, ℤ, Bytes, Bool, true, false, Option, none, some, List, [],
  ◌++◌, codes, ◌==◌, if◌then◌else◌, arith, All, All-append, mem, Bool-cases, Option-cases,
}
use mathlib.Core.List.{reverse}
use latlearn.Registry.{Registry, Sample, run, spans_latlearn_builtin}
use latlearn.Registry.Store.{IsValid}
use latlearn.State.{Latlearn, CommMsg}
use latlearn.Span.{ssu_before, after_and_update}
use latlearn.Report.Host.{Host, is_darwin}
use latlearn.Report.Whole.{report_inner}
use latlearn.Report.Whole.Total.{report_text_rows}
use latlearn.Benchmarks.{benchmarks_inner, loops, mac_commands}
use latlearn.Benchmarks.Samples.{
  after_and_update-Takes, loops_spans-All, execs_spans-All, benchmark_spans, portable_spans,
  mac_spans, loops_spans-loops, execs_spans-mac, benchmarks_inner-run,
}
use latlearn.Server.{
  handle_msg_a, values_reply, handle_msg_values, handle_msg_report, handle_msg_benchmarks, go_on,
  handle_comm_msg, finish,
}
use latlearn.Server.Handlers.{report_inner_cases, send_done-registry}
use latlearn.Server.Own.{outside, sample_of, IsBuiltin, outside_own}

-- The registry has taken the samples `new`, but for latlearn's own.
pub record Effect (r : Registry) (new : List Sample) (t : Registry) : Type 0 where
  pub samples : List Sample
  pub taken : t ≡ run r samples
  pub rest : outside samples ≡ outside new

Effect-none : (r t : Registry) → t ≡ r → Effect r [] t
unfolding run
Effect-none r t e = record { samples = []; taken = e; rest = refl }

loops-IsBuiltin : All (λ (l : ℕ × List Bytes). All IsBuiltin (reverse l.1)) loops
unfolding mem ◌==◌ spans_latlearn_builtin
loops-IsBuiltin = (
  (refl, tt),
  (
    (refl, tt),
    (
      (refl, tt),
      (
        (refl, tt),
        (
          (refl, tt),
          (
            (refl, tt),
            (
              (refl, (refl, (refl, tt))),
              ((refl, tt), ((refl, tt), ((refl, tt), ((refl, (refl, (refl, tt))), tt)))),
            ),
          ),
        ),
      ),
    ),
  ),
)

commands-IsBuiltin :
    All (λ sub. IsBuiltin (codes "LL.exec-command(" ++ (sub ++ codes ")"))) mac_commands
unfolding mem ◌==◌ spans_latlearn_builtin
commands-IsBuiltin = (
  refl,
  (
    refl,
    (refl, (refl, (refl, (refl, (refl, (refl, (refl, (refl, (refl, (refl, (refl, tt))))))))))),
  ),
)

portable-IsBuiltin : All IsBuiltin portable_spans
portable-IsBuiltin =
    subst (All IsBuiltin) loops_spans-loops (loops_spans-All IsBuiltin loops loops-IsBuiltin)

mac-IsBuiltin : All IsBuiltin mac_spans
mac-IsBuiltin =
    subst (All IsBuiltin) execs_spans-mac
      (execs_spans-All IsBuiltin mac_commands commands-IsBuiltin)

benchmark_spans-IsBuiltin : (darwin : Bool) → All IsBuiltin (benchmark_spans darwin)
unfolding mem ◌==◌ spans_latlearn_builtin
benchmark_spans-IsBuiltin true =
    (refl, All-append IsBuiltin mac_spans portable_spans mac-IsBuiltin portable-IsBuiltin)
benchmark_spans-IsBuiltin false = (refl, portable-IsBuiltin)

after_and_update-Effect :
    (l : Latlearn) (span : Bytes) (t0 t1 : ℤ)
    → IsBuiltin span
    → l.init_completed ≡ true
    → Effect l.registry [] (after_and_update l (ssu_before span [] t0) t1).0.registry
after_and_update-Effect l span t0 t1 b e =
    let t = after_and_update-Takes l span t0 t1 e in
    record {
      samples = t.samples;
      taken = t.taken;
      rest = outside_own t.samples t.plain (rw t.names (b, tt)) ∙ unfold outside in refl;
    }

abbrev EffectOf : Registry → List Sample → Option (Latlearn × Bool) → Type 0
EffectOf r new none = Unit
EffectOf r new (some (l, b)) = Effect r new l.registry

module _ (h : Host) (clock : ℕ → ℤ) (l : Latlearn) (v : IsValid l.registry) where
  report_inner-Effect :
      (params : List Bytes)
      → l.init_completed ≡ true
      → EffectOf l.registry [] (report_inner h clock l params)
  report_inner-Effect params e =
      elim (report_inner_cases h clock l params _ (report_text_rows h l params (clock 1) v)) [
        | inl gave_up ↦ rw gave_up (Effect-none l.registry l.registry refl)
        | inr wrote ↦ rw wrote (
            after_and_update-Effect _ (codes "LL.lat-report") (clock 0) (clock 2)
              (unfold mem ◌==◌ spans_latlearn_builtin in refl) e)
      ]

  handle_msg_report-Effect :
      (msg : CommMsg)
      → l.init_completed ≡ true
      → EffectOf l.registry [] (go_on (handle_msg_report h clock l msg))
  unfolding handle_msg_report
  handle_msg_report-Effect msg e =
      go (report_inner h clock l msg.params) refl (report_inner-Effect msg.params e)
    where
      go :
          (o : Option (Latlearn × Bool))
          → report_inner h clock l msg.params ≡ o
          → EffectOf l.registry [] o
          → EffectOf l.registry [] (go_on (handle_msg_report h clock l msg))
      go none q s = rw (handle_msg_report, q) tt
      go (some (m, ok)) q s = rw (handle_msg_report, q) (rw (send_done-registry m msg) s)

  benchmarks_inner-Effect :
      (darwin : Bool)
      → l.init_completed ≡ true
      → Effect l.registry [] (benchmarks_inner darwin clock l).0.registry
  benchmarks_inner-Effect darwin e =
      let (samples, taken, names, plain, ok) = benchmarks_inner-run darwin clock l e in
      record {
        samples = samples;
        taken = taken;
        rest =
            outside_own samples plain (rw names (benchmark_spans-IsBuiltin darwin))
            ∙ unfold outside in refl;
      }

  handle_msg_benchmarks-Effect :
      (msg : CommMsg)
      → l.init_completed ≡ true
      → Effect l.registry [] (handle_msg_benchmarks h clock l msg).registry
  unfolding handle_msg_benchmarks
  handle_msg_benchmarks-Effect msg e =
      rw (send_done-registry (benchmarks_inner (is_darwin h) clock l).0 msg)
        (benchmarks_inner-Effect (is_darwin h) e)

handle_msg_values-kept :
    (l m : Latlearn) (msg : CommMsg) → handle_msg_values l msg ≡ some m → m.registry ≡ l.registry
unfolding handle_msg_values
handle_msg_values-kept l m msg e = elim (Option-cases msg.reply_chan) [
  | inl n ↦ ground arith
  | inr (chan, c) ↦ elim (Option-cases (values_reply l.registry msg)) [
    | inl n ↦ absurd (ground arith)
    | inr (reply, q) ↦ ground arith
  ]
]

handle_msg_values-Effect :
    (l : Latlearn) (msg : CommMsg) → EffectOf l.registry [] (go_on (handle_msg_values l msg))
handle_msg_values-Effect l msg = go (handle_msg_values l msg) refl
  where
    go : (o : Option Latlearn) → handle_msg_values l msg ≡ o → EffectOf l.registry [] (go_on o)
    go none e = tt
    go (some m) e = Effect-none l.registry m.registry (handle_msg_values-kept l m msg e)

either :
    (r : Registry) (b : Bool) (x y : Option (Latlearn × Bool))
    → EffectOf r [] x
    → EffectOf r [] y
    → EffectOf r [] (if b then x else y)
either r true x y s t = s
either r false x y s t = t

-- A message adds its sample to the registry, if it brings one, and latlearn's own samples.
handle_comm_msg-Effect :
    (h : Host) (clock : ℕ → ℤ) (l : Latlearn) (msg : CommMsg)
    → IsValid l.registry
    → l.init_completed ≡ true
    → EffectOf l.registry (sample_of msg) (handle_comm_msg h clock l msg)
unfolding handle_comm_msg handle_msg_a sample_of run
handle_comm_msg-Effect h clock l msg v done = elim (Bool-cases (msg.ttype == codes "A")) [
  | inl e ↦ rw e (record { samples = _; taken = refl; rest = refl })
  | inr e ↦ rw e (
      either l.registry (msg.ttype == codes "values") _ _ (handle_msg_values-Effect l msg) (
        either l.registry (msg.ttype == codes "benchmarks") _ _
          (handle_msg_benchmarks-Effect h clock l v msg done)
          (either l.registry (msg.ttype == codes "report") _ _
            (handle_msg_report-Effect h clock l v msg done)
            (either l.registry (msg.ttype == codes "stop") _ _
              (Effect-none l.registry l.registry refl) (Effect-none l.registry l.registry refl)))))
]

pub round-Effect :
    (h : Host) (clock : ℕ → ℤ) (l m : Latlearn) (msg : CommMsg)
    → IsValid l.registry
    → l.init_completed ≡ true
    → finish (handle_comm_msg h clock l msg) ≡ some m
    → Effect l.registry (sample_of msg) m.registry
round-Effect h clock l m msg v done e =
    go (handle_comm_msg h clock l msg) (handle_comm_msg-Effect h clock l msg v done) e
  where
    go :
        (o : Option (Latlearn × Bool))
        → EffectOf l.registry (sample_of msg) o
        → finish o ≡ some m
        → Effect l.registry (sample_of msg) m.registry
    go none s q = absurd (ground arith)
    go (some (n, true)) s q = let same : m.registry ≡ n.registry = ground arith in rw same s
    go (some (n, false)) s q = let same : m.registry ≡ n.registry = ground arith in rw same s
