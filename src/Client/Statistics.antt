-- ===== src/Client/Statistics.antt =====
-- From the samples that a program ends to the statistics of latlearn.
use latlearn.Common.{
  gather-append, ◌≡◌, sym, ap, ◌∙◌, subst, Bytes, true, false, some, List, [], ◌++◌, mem, All,
}
use latlearn.Learner.Samples.{Summarises}
use latlearn.Registry.{init_registry, spans_latlearn_builtin}
use latlearn.Registry.Store.{stats}
use latlearn.Registry.Trace.{durations, IsApart}
use latlearn.State.{Latlearn, CommMsg}
use latlearn.System.Invariant.{Inv}
use latlearn.System.Order.{all_sent, all_handled, Reach-balance}
use latlearn.System.Statistics.{samples_of, Reach-Summarises}
use latlearn.Client.{Program, Env, World, run}
use latlearn.Client.Sends.{recorded, Sends}
use latlearn.Report.Host.{Host}
use latlearn.Registry.{Sample}
use latlearn.Server.Own.{sample_of}
use latlearn.Client.Runs.{run-Sent}

-- From an initialised state of the invariant with no sample yet and an empty queue to one whose queue
-- holds no sample, with the samples `xs` sent on the way.
pub Sends-Summarises :
    (h : Host) {l m : Latlearn} (xs : List Sample) (s : Sends h l m xs)
    (spans_app more : List Bytes) (k : Bytes)
    → Inv l
    → l.init_completed ≡ true
    → l.registry ≡ init_registry spans_app
    → l.comm_outer ≡ []
    → samples_of m.comm_outer ≡ []
    → mem k spans_latlearn_builtin ≡ false
    → All (IsApart ((spans_app ++ spans_latlearn_builtin) ++ more)) xs
    → Summarises (stats m.registry k) k (durations k xs)
Sends-Summarises h {l} {m} xs s spans_app more k inv on fresh empty none_left other apart =
    let r = s.reach in
    let all : all_sent r ≡ all_handled r ++ m.comm_outer =
      sym (ap (λ (ms : List CommMsg). ms ++ all_sent r) empty) ∙ Reach-balance r inv on in
    let same : samples_of (all_handled r) ≡ xs =
      ap (λ ss. ss ++ samples_of (all_handled r)) (sym none_left)
      ∙ sym (gather-append sample_of (all_handled r) m.comm_outer)
      ∙ ap samples_of (sym all)
      ∙ s.sent in
    subst (λ ss. Summarises (stats m.registry k) k (durations k ss)) same
      (Reach-Summarises h spans_app more r k (inv.once ∙ on) on fresh other
        (subst (All (IsApart ((spans_app ++ spans_latlearn_builtin) ++ more))) (sym same) apart))

-- A program that runs from an initialised state of the invariant with no sample yet, none in the
-- registry, sent or ended, when `serve` has taken all its messages: the learner of a span or variant
-- that is not one of latlearn's own summarises exactly the samples that the program ended for it,
-- however its calls were interleaved with `serve` and whatever reports, benchmarks and requests it
-- asked for, where its samples are for expected spans or those of the list `more`, and no variant's
-- key is the name of such a span.
pub run-Summarises :
    {A : Type 0} (e : Env) (p : Program A) (w w' : World) (a : A) (spans_app more : List Bytes)
    (k : Bytes)
    → Inv w.latlearn
    → w.latlearn.init_completed ≡ true
    → w.latlearn.registry ≡ init_registry spans_app
    → w.latlearn.comm_outer ≡ []
    → w.ended ≡ []
    → run e p w ≡ some (a, w')
    → w'.latlearn.comm_outer ≡ []
    → mem k spans_latlearn_builtin ≡ false
    → All (IsApart ((spans_app ++ spans_latlearn_builtin) ++ more)) (recorded w'.ended)
    → Summarises (stats w'.latlearn.registry k) k (durations k (recorded w'.ended))
run-Summarises e p w w' a spans_app more k inv on fresh empty none_ended q served other apart =
    let s = run-Sent e p w a w' q in
    let new : s.new ≡ w'.ended = sym (s.ended ∙ ap (λ xs. xs ++ s.new) none_ended) in
    let sends : Sends e.host w.latlearn w'.latlearn (recorded w'.ended) =
      subst (λ xs. Sends e.host w.latlearn w'.latlearn (recorded xs)) new s.sends in
    Sends-Summarises e.host (recorded w'.ended) sends spans_app more k inv on fresh empty
      (ap samples_of served) other apart
