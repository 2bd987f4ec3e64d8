-- ===== src/System/Statistics.antt =====
-- The statistics of an application's span in the running process, by the messages handled so far.
use latlearn.Common.{
  gather, gather-append, ℕ, ◌≡◌, refl, sym, ap, ◌∙◌, subst, inl, inr, ℤ, Bytes, true, false, List,
  [], ◌∷◌, ◌++◌, append-nil, All, mem, mem-append, some, arith,
}
use latlearn.Learner.Samples.{Summarises}
use latlearn.Registry.{Sample, run, init_registry, spans_latlearn_builtin}
use latlearn.Registry.Store.{IsValid, stats}
use latlearn.Registry.Init.{init_registry-IsValid}
use latlearn.Registry.Trace.{
  durations, IsApart, stats-run-Summarises, run-IsValid, tracked_spans-run,
}
use latlearn.State.{Latlearn, CommMsg}
use latlearn.Report.Host.{Host}
use latlearn.Server.{serve_start, serve_outer, serve_inner, finish, handle_comm_msg}
use latlearn.Server.Controls.{Control}
use latlearn.Server.Effect.{round-Effect}
use latlearn.Server.Own.{outside, sample_of}
use latlearn.Benchmarks.Samples.{run-append}
use latlearn.Api.Queued.{
  Queued, ssu_a-Queued, ssu_a2-Queued, report2-Queued, benchmarks-Queued, call_values-Queued,
  stop-Queued,
}
use latlearn.System.{
  Step, Reach, initialises, configures, ends, ends_variant, asks_report, asks_benchmarks,
  asks_values, asks_stop, begins_self_sample, ends_self_sample, serve_starts, serves_outer,
  serves_inner, here, next,
}
use latlearn.System.Invariant.{init2_again}
use latlearn.System.Round.{round-channels}
use latlearn.System.Order.{handled_by, all_handled}
use latlearn.Server.Own.{outside-append, durations-outside, own-IsApart, All-outside, outside-All}

-- The samples of the messages, newest first; the messages are oldest first.
abbrev pub samples_of : List CommMsg → List Sample
samples_of = gather sample_of

-- The registry of `l` is that of the messages `msgs`, but for latlearn's own samples.
record Summed (spans_app : List Bytes) (msgs : List CommMsg) (l : Latlearn) : Type 0 where
  once : l.init_once ≡ true
  done : l.init_completed ≡ true
  samples : List Sample
  taken : l.registry ≡ run (init_registry spans_app) samples
  rest : outside samples ≡ outside (samples_of msgs)

Summed-kept :
    (spans_app : List Bytes) (msgs : List CommMsg) (l m : Latlearn)
    → m.init_once ≡ l.init_once
    → m.init_completed ≡ l.init_completed
    → m.registry ≡ l.registry
    → Summed spans_app msgs l
    → Summed spans_app (msgs ++ []) m
Summed-kept spans_app msgs l m o c r s = rw (append-nil msgs) (record {
  once = o ∙ s.once;
  done = c ∙ s.done;
  samples = s.samples;
  taken = r ∙ s.taken;
  rest = s.rest;
})

Summed-Queued :
    (spans_app : List Bytes) (msgs : List CommMsg) (l m : Latlearn)
    → Queued l m
    → Summed spans_app msgs l
    → Summed spans_app (msgs ++ []) m
Summed-Queued spans_app msgs l m (inl e) s =
    Summed-kept spans_app msgs l m (ap (λ (x : Latlearn). x.init_once) e)
      (ap (λ (x : Latlearn). x.init_completed) e) (ap (λ (x : Latlearn). x.registry) e) s
Summed-Queued spans_app msgs l m (inr (msg, n, o, room, e, more, made)) s =
    Summed-kept spans_app msgs l m (ap (λ (x : Latlearn). x.init_once) e)
      (ap (λ (x : Latlearn). x.init_completed) e) (ap (λ (x : Latlearn). x.registry) e) s

-- A round on the message `msg`, `l` being the state without it.
Summed-round :
    (h : Host) (clock : ℕ → ℤ) (spans_app : List Bytes) (msgs : List CommMsg) (l m : Latlearn)
    (msg : CommMsg)
    → finish (handle_comm_msg h clock l msg) ≡ some m
    → Summed spans_app msgs l
    → Summed spans_app (msgs ++ msg ∷ []) m
Summed-round h clock spans_app msgs l m msg e s =
    let v : IsValid l.registry =
      rw s.taken
        (run-IsValid (init_registry spans_app) s.samples (init_registry-IsValid spans_app)) in
    let k = round-channels h clock l msg m e in
    let t = round-Effect h clock l m msg v s.done e in
    record {
      once = ap (λ (c : Control). c.init_once) k ∙ s.once;
      done = ap (λ (c : Control). c.init_completed) k ∙ s.done;
      samples = t.samples ++ s.samples;
      taken =
          t.taken
          ∙ ap (λ r. run r t.samples) s.taken
          ∙ sym (run-append (init_registry spans_app) t.samples s.samples);
      rest =
          rw
            (
              gather-append sample_of msgs (msg ∷ []),
              outside-append t.samples s.samples,
              outside-append (sample_of msg) (samples_of msgs),
              t.rest,
              s.rest,
            )
            refl;
    }

module _ (h : Host) (spans_app : List Bytes) (msgs : List CommMsg) where
  Step-Summed :
      {l m : Latlearn} (s : Step h l m)
      → Summed spans_app msgs l
      → Summed spans_app (msgs ++ handled_by s) m
  unfolding handled_by
  Step-Summed {l} {m} (initialises spans now) s =
      let same = init2_again l spans now s.once in Summed-Queued spans_app msgs l m (inl same) s
  Step-Summed {l} {m} (configures outer inner builtins subtract path) s =
      Summed-kept spans_app msgs l m refl refl refl s
  Step-Summed {l} {m} (ends ssu ssu' now ok e) s =
      Summed-Queued spans_app msgs l m (ssu_a-Queued l ssu now m ssu' ok e) s
  Step-Summed {l} {m} (ends_variant ssu ssu' variant now ok e) s =
      Summed-Queued spans_app msgs l m (ssu_a2-Queued l ssu variant now m ssu' ok e) s
  Step-Summed {l} {m} (asks_report params chan e) s =
      Summed-Queued spans_app msgs l m (report2-Queued l m params chan e) s
  Step-Summed {l} {m} (asks_benchmarks chan e) s =
      Summed-Queued spans_app msgs l m (benchmarks-Queued l m chan e) s
  Step-Summed {l} {m} (asks_values span chan e) s =
      Summed-Queued spans_app msgs l m (call_values-Queued l m span chan e) s
  Step-Summed {l} {m} (asks_stop ok e) s = Summed-Queued spans_app msgs l m (stop-Queued l m ok e) s
  Step-Summed {l} {m} begins_self_sample s = Summed-kept spans_app msgs l m refl refl refl s
  Step-Summed {l} {m} (ends_self_sample true) s = Summed-kept spans_app msgs l m refl refl refl s
  Step-Summed {l} {m} (ends_self_sample false) s = Summed-kept spans_app msgs l m refl refl refl s
  Step-Summed {l} {m} (serve_starts done fresh) s =
      unfold serve_start in Summed-kept spans_app msgs l m refl refl refl s
  Step-Summed {l} {m} (serves_outer clock msg rest running unfinished q e) s =
      Summed-round h clock spans_app msgs (record l { comm_outer = rest }) m msg
        (unfold serve_outer in e)
        (record {
          once = s.once;
          done = s.done;
          samples = s.samples;
          taken = s.taken;
          rest = s.rest;
        })
  Step-Summed {l} {m} (serves_inner clock msg rest running unfinished q e) s =
      Summed-round h clock spans_app msgs (record l { comm_inner = rest }) m msg
        (unfold serve_inner in e)
        (record {
          once = s.once;
          done = s.done;
          samples = s.samples;
          taken = s.taken;
          rest = s.rest;
        })

Reach-Summed :
    (h : Host) (spans_app : List Bytes) {l m : Latlearn} (r : Reach h l m)
    → l.init_once ≡ true
    → l.init_completed ≡ true
    → l.registry ≡ init_registry spans_app
    → Summed spans_app (all_handled r) m
unfolding all_handled
Reach-Summed h spans_app here o c e = record {
  once = o;
  done = c;
  samples = [];
  taken = e ∙ unfold run in refl;
  rest = refl;
}
Reach-Summed h spans_app (next r s) o c e =
    Step-Summed h spans_app (all_handled r) s (Reach-Summed h spans_app r o c e)

-- The expected spans stay tracked.
pub Reach-tracks :
    (h : Host) (spans_app : List Bytes) {l m : Latlearn} (r : Reach h l m) (k : Bytes)
    → l.init_once ≡ true
    → l.init_completed ≡ true
    → l.registry ≡ init_registry spans_app
    → mem k spans_app ≡ true
    → mem k m.registry.tracked_spans ≡ true
Reach-tracks h spans_app r k once done fresh expected =
    let s = Reach-Summed h spans_app r once done fresh in
    let (more, e) = tracked_spans-run spans_app s.samples in
    rw (s.taken, e)
      (ground (
        arith,
        mem-append k (spans_app ++ spans_latlearn_builtin) more,
        mem-append k spans_app spans_latlearn_builtin,
      ))

-- From any state after `Init2` that has no samples yet, in whatever order the goroutines run, with
-- reports, benchmarks and requests in between: the learner of a span or variant that is not one of
-- latlearn's own summarises exactly the samples for it in the messages that `serve` has handled,
-- where these are for expected spans or those of the list `more`, and no variant's key is the name
-- of such a span.
pub Reach-Summarises :
    (h : Host) (spans_app more : List Bytes) {l m : Latlearn} (r : Reach h l m) (k : Bytes)
    → l.init_once ≡ true
    → l.init_completed ≡ true
    → l.registry ≡ init_registry spans_app
    → mem k spans_latlearn_builtin ≡ false
    → All (IsApart ((spans_app ++ spans_latlearn_builtin) ++ more)) (samples_of (all_handled r))
    → Summarises (stats m.registry k) k (durations k (samples_of (all_handled r)))
Reach-Summarises h spans_app more {l} {m} r k once done fresh other apart =
    let s = Reach-Summed h spans_app r once done fresh in
    let P = IsApart ((spans_app ++ spans_latlearn_builtin) ++ more) in
    let all : All P s.samples =
      outside-All P (own-IsApart spans_app more) s.samples
        (rw s.rest (All-outside P (samples_of (all_handled r)) apart)) in
    let same : durations k s.samples ≡ durations k (samples_of (all_handled r)) =
      sym (durations-outside k s.samples other)
      ∙ ap (durations k) s.rest
      ∙ durations-outside k (samples_of (all_handled r)) other in
    rw s.taken (
      subst (λ ds. Summarises (stats (run (init_registry spans_app) s.samples) k) k ds) same
        (stats-run-Summarises spans_app more s.samples k all))
