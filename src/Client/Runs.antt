-- ===== src/Client/Runs.antt =====
-- The steps of the process, and the messages, behind a run of a program.
use latlearn.Common.{
  List, [], ◌∷◌, ◌++◌, ◌==◌, if◌then◌else◌, gather-append, append-nil, append_assoc, sym, ◌∙◌, ℕ,
  ◌≡◌, refl, ap, subst, inl, inr, ℤ, Bytes, Bool, false, Option, none, some, arith, Option-cases,
}
use latlearn.State.{Latlearn}
use latlearn.Span.{SpanSampleUnderway}
use latlearn.Api.{report2, benchmarks, call_values, stop}
use latlearn.Api.Ending.{end_sample}
use latlearn.System.{
  Step, Reach, initialises, configures, ends, ends_variant, asks_report, asks_benchmarks,
  asks_values, asks_stop, begins_self_sample, ends_self_sample,
}
use latlearn.Server.Own.{sample_of}
use latlearn.System.Order.{sent_by}
use latlearn.System.Statistics.{samples_of}
use latlearn.Client.Sends.{
  Sends, sample_ended, recorded, Sends-same, Sends-one, Sends-joined, Sends-later, ended_samples,
  request_samples, stop_samples,
}
use latlearn.Client.{
  Call, now, init_spans, set_report_fpath, set_should_report_builtins, set_should_subtract_overhead,
  end_span, ask_report, ask_benchmarks, ask_values, ask_stop, is_init_completed, begin_self_sample,
  end_self_sample, rand_intn, sleep, ended_by, Answer, Program, returns, calls, Env, World,
  take_turns, with_room, attempt, perform, run, done_answer, reply_answer,
}
use latlearn.Client.Turns.{take_turns-Sends, with_room-Sends, ask-Sends}

module _ (e : Env) (tick : ℕ) where
  end_sample-Sends :
      (how : Option Bytes) (ssu : SpanSampleUnderway) (t : ℤ) (l : Latlearn)
      (r : Latlearn × SpanSampleUnderway × Bool)
      → end_sample how l ssu t ≡ some r
      → Sends e.host l r.0 (recorded (if r.2 then r.1 ∷ [] else []))
  unfolding sent_by
  end_sample-Sends none ssu t l (m, ssu', ok) q =
      Sends-one e.host l m (ends ssu ssu' t ok q) _ (ended_samples ssu' ok)
  end_sample-Sends (some v) ssu t l (m, ssu', ok) q =
      Sends-one e.host l m (ends_variant ssu ssu' v t ok q) _ (ended_samples ssu' ok)

  -- One step, to the state that the call is known to leave.
  stepped :
      (l k m : Latlearn) (s : Step e.host l k)
      → samples_of (sent_by s) ≡ []
      → k ≡ m
      → Sends e.host l m []
  stepped l k m s none_sent same =
      subst (λ k. Sends e.host l k []) same (Sends-one e.host l k s [] none_sent)

  pub report-Sends :
      (params : List Bytes) (l : Latlearn) (r : Latlearn × Option ℕ)
      → report2 l params ≡ some r
      → Sends e.host l r.0 []
  unfolding sent_by sample_of ◌==◌
  report-Sends params l (m, chan) p =
      Sends-one e.host l m (asks_report params chan p) [] (request_samples _ chan (λ c. refl))

  benchmarks-Sends :
      (l : Latlearn) (r : Latlearn × Option ℕ) → benchmarks l ≡ some r → Sends e.host l r.0 []
  unfolding sent_by sample_of ◌==◌
  benchmarks-Sends l (m, chan) p =
      Sends-one e.host l m (asks_benchmarks chan p) [] (request_samples _ chan (λ c. refl))

  values-Sends :
      (span : Bytes) (l : Latlearn) (r : Latlearn × Option ℕ)
      → call_values l span ≡ some r
      → Sends e.host l r.0 []
  unfolding sent_by sample_of ◌==◌
  values-Sends span l (m, chan) p =
      Sends-one e.host l m (asks_values span chan p) [] (request_samples _ chan (λ c. refl))

  stop-Sends : (l : Latlearn) (r : Latlearn × Bool) → stop l ≡ some r → Sends e.host l r.0 []
  unfolding sent_by
  stop-Sends l (m, ok) p = Sends-one e.host l m (asks_stop ok p) [] (stop_samples ok)

  attempt-Sends :
      (c : Call) (l m : Latlearn) (a : Answer c)
      → attempt e tick c l ≡ some (a, m)
      → Sends e.host l m (recorded (ended_by c a))
  unfolding attempt
  attempt-Sends now l m a q = Sends-same e.host l m (ground arith)
  attempt-Sends (init_spans spans_app) l m a q =
      stepped l _ m (initialises spans_app (e.clock tick)) (unfold sent_by in refl) (ground arith)
  attempt-Sends (set_report_fpath path) l m a q =
      stepped l _ m
        (configures l.outer_queue_capacity l.inner_queue_capacity l.should_report_builtins
          l.should_subtract_overhead path)
        (unfold sent_by in refl) (ground arith)
  attempt-Sends (set_should_report_builtins b) l m a q =
      stepped l _ m
        (configures l.outer_queue_capacity l.inner_queue_capacity b l.should_subtract_overhead
          l.report_fpath)
        (unfold sent_by in refl) (ground arith)
  attempt-Sends (set_should_subtract_overhead b) l m a q =
      stepped l _ m
        (configures l.outer_queue_capacity l.inner_queue_capacity l.should_report_builtins b
          l.report_fpath)
        (unfold sent_by in refl) (ground arith)
  attempt-Sends (end_span how ssu) l m a q =
      elim (Option-cases (with_room e tick (λ l. end_sample how l ssu (e.clock tick)) l)) [
        | inl s ↦ absurd (ground arith)
        | inr ((k, ssu', ok), s) ↦
            let same : k ≡ m = ground arith in
            let result : a ≡ (ssu', ok) = ground arith in
            let sends =
              with_room-Sends e tick (λ r. r.0) (λ r. recorded (if r.2 then r.1 ∷ [] else []))
                (λ l. end_sample how l ssu (e.clock tick)) (end_sample-Sends how ssu (e.clock tick))
                l (k, ssu', ok) s in
            rw result
              (subst (λ k. Sends e.host l k (recorded (if ok then ssu' ∷ [] else []))) same sends)
      ]
  attempt-Sends (ask_report params) l m a q =
      ask-Sends e tick (λ l. report2 l params) done_answer false (report-Sends params) l m a q
  attempt-Sends ask_benchmarks l m a q =
      ask-Sends e tick benchmarks done_answer false benchmarks-Sends l m a q
  attempt-Sends (ask_values span) l m a q =
      ask-Sends e tick (λ l. call_values l span) reply_answer none (values-Sends span) l m a q
  attempt-Sends ask_stop l m a q = elim (Option-cases (with_room e tick stop l)) [
    | inl s ↦ absurd (ground arith)
    | inr ((k, ok), s) ↦
        let same : k ≡ m = ground arith in
        subst (λ k. Sends e.host l k []) same
          (with_room-Sends e tick (λ r. r.0) (λ r. []) stop stop-Sends l (k, ok) s)
  ]
  attempt-Sends is_init_completed l m a q = Sends-same e.host l m (ground arith)
  attempt-Sends begin_self_sample l m a q =
      stepped l _ m (begins_self_sample) (unfold sent_by in refl) (ground arith)
  attempt-Sends (end_self_sample ok) l m a q =
      stepped l _ m (ends_self_sample ok) (unfold sent_by in refl) (ground arith)
  attempt-Sends (rand_intn n) l m a q = Sends-same e.host l m (ground arith)
  attempt-Sends (sleep duration) l m a q = Sends-same e.host l m (ground arith)

-- What a run of a program, or of a call, comes to: the samples that it ended are sent, in their order.
pub record Sent (e : Env) (w w' : World) : Type 0 where
  pub new : List SpanSampleUnderway
  pub ended : w'.ended ≡ w.ended ++ new
  pub sends : Sends e.host w.latlearn w'.latlearn (recorded new)

pub Sent-none : (e : Env) (w : World) → Sent e w w
Sent-none e w = record {
  new = [];
  ended = sym (append-nil w.ended);
  sends = Sends-same e.host w.latlearn w.latlearn refl;
}

pub Sent-joined : (e : Env) (w u v : World) → Sent e w u → Sent e u v → Sent e w v
Sent-joined e w u v first rest = record {
  new = first.new ++ rest.new;
  ended =
      rest.ended ∙ ap (λ xs. xs ++ rest.new) first.ended ∙ append_assoc w.ended first.new rest.new;
  sends =
      subst (Sends e.host w.latlearn v.latlearn)
        (sym (gather-append sample_ended first.new rest.new))
        (Sends-joined e.host first.sends rest.sends);
}

pub perform-Sent :
    (e : Env) (c : Call) (w : World) (a : Answer c) (w' : World)
    → perform e c w ≡ some (a, w')
    → Sent e w w'
unfolding perform
perform-Sent e c w a w' q = elim (Option-cases (take_turns e w.tick (e.turns w.tick) w.latlearn)) [
  | inl s ↦ absurd (ground arith)
  | inr (k, s) ↦ elim (Option-cases (attempt e w.tick c k)) [
    | inl t ↦ absurd (ground arith)
    | inr ((b, m), t) ↦
        let same : m ≡ w'.latlearn = ground arith in
        record {
          new = ended_by c b;
          ended = ground arith;
          sends =
              subst (λ m. Sends e.host w.latlearn m (recorded (ended_by c b))) same
                (Sends-later e.host (take_turns-Sends e w.tick (e.turns w.tick) w.latlearn k s)
                  (attempt-Sends e w.tick c k m b t));
        }
  ]
]

pub run-Sent :
    {A : Type 0} (e : Env) (p : Program A) (w : World) (a : A) (w' : World)
    → run e p w ≡ some (a, w')
    → Sent e w w'
unfolding run
run-Sent e (returns b) w a w' q =
    let same : w ≡ w' = ground arith in subst (Sent e w) same (Sent-none e w)
run-Sent e (calls c k) w a w' q = elim (Option-cases (perform e c w)) [
  | inl s ↦ absurd (ground arith)
  | inr ((b, v), s) ↦
      let first = perform-Sent e c w b v s in
      Sent-joined e w v w' first (run-Sent e (k b) v a w' (ground arith))
]

pub perform-Reach :
    (e : Env) (c : Call) (w : World) (a : Answer c) (w' : World)
    → perform e c w ≡ some (a, w')
    → Reach e.host w.latlearn w'.latlearn
perform-Reach e c w a w' q = (perform-Sent e c w a w' q).sends.reach
