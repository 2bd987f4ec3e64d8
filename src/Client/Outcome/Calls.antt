-- ===== src/Client/Outcome/Calls.antt =====
-- The calls of a program that end no sample, and the spans from `B2` to `A`.
use latlearn.Common.{
  ◌≡◌, refl, ap, subst, Bytes, Bool, true, false, not, ◌&&◌, ◌++◌, none, List, [], ◌∷◌, arith,
}
use mathlib.Core.List.{map}
use latlearn.State.{Latlearn}
use latlearn.Client.Asks.{Replies, IsTrue, IsReply, report-Replies, values-Replies}
use latlearn.Client.Calm.{Calm}
use latlearn.Span.{before, ssu_before}
use latlearn.Client.{
  Call, now, init_spans, set_report_fpath, set_should_report_builtins, set_should_subtract_overhead,
  end_span, ask_report, ask_benchmarks, ask_values, ask_stop, is_init_completed, begin_self_sample,
  end_self_sample, rand_intn, sleep, Answer, Program, returns, calls, call, ◌>>=◌, ◌>>◌, Env, World,
  ended_by, attempt,
}
use latlearn.Client.Waits.{take_turns-Calm}
use latlearn.Client.Total.{is_stop_call, attempt-Stays, performed}
use latlearn.Client.Programs.{call_b2, call_a}
use latlearn.Client.Outcome.{
  Ready, key_of, Outcome, Any, perform_on, performed-Outcome, then-Outcome, and_then-Outcome,
  and_quietly-Outcome, returns-Outcome,
}
use latlearn.Client.Outcome.Samples.{Begun, end_fresh-Outcome}

-- A call that ends no sample and asks for no stop.
abbrev pub is_quiet : Call → Bool
is_quiet (end_span how ssu) = false
is_quiet c = not (is_stop_call c)

ended_quiet : (c : Call) (a : Answer c) → is_quiet c ≡ true → ended_by c a ≡ []
ended_quiet now a q = refl
ended_quiet (init_spans spans_app) a q = refl
ended_quiet (set_report_fpath path) a q = refl
ended_quiet (set_should_report_builtins b) a q = refl
ended_quiet (set_should_subtract_overhead b) a q = refl
ended_quiet (end_span how ssu) a q = absurd (ground arith)
ended_quiet (ask_report params) a q = refl
ended_quiet ask_benchmarks a q = refl
ended_quiet (ask_values span) a q = refl
ended_quiet ask_stop a q = refl
ended_quiet is_init_completed a q = refl
ended_quiet begin_self_sample a q = refl
ended_quiet (end_self_sample ok) a q = refl
ended_quiet (rand_intn n) a q = refl
ended_quiet (sleep duration) a q = refl

pub quiet_no_stop : (c : Call) → is_quiet c ≡ true → is_stop_call c ≡ false
quiet_no_stop (end_span how ssu) q = refl
quiet_no_stop c q = ground arith

abbrev all_quiet : List Call → Bool
all_quiet [] = true
all_quiet (c ∷ cs) = is_quiet c && all_quiet cs

abbrev all_calls : {A : Type 0} → List Call → Program A → Program A
all_calls [] p = p
all_calls (c ∷ cs) p = calls c (λ _. all_calls cs p)

-- The assignments to the exported settings.
abbrev pub assignments : Bytes → Bool → Bool → List Call
assignments path builtins subtract =
    set_report_fpath path
    ∷ set_should_report_builtins builtins
    ∷ set_should_subtract_overhead subtract
    ∷ []

-- Spans from `B2` to `A`, one after the other.
abbrev all_spans : {A : Type 0} → List (Bytes × Bytes) → Program A → Program A
all_spans [] p = p
all_spans ((name, variant) ∷ ks) p = call_b2 name variant >>= λ ssu. call_a ssu >> all_spans ks p

module _ (e : Env) where
  pub quiet-Outcome :
      (c : Call) (w : World) → is_quiet c ≡ true → Ready w.latlearn → Outcome e (call c) w Any []
  quiet-Outcome c w quiet ready =
      let (l, q, calm) = take_turns-Calm e w.tick (e.turns w.tick) w.latlearn ready.0 in
      let (a, m, r, d) = attempt-Stays e w.tick c l (quiet_no_stop c quiet) calm in
      let p = performed e c w l m a q r in
      subst (Outcome e (call c) w Any) (ap (map key_of) (ended_quiet c a quiet))
        (performed-Outcome e c w m a Any p (d, perform_on e c w _ a p ready.1) tt)

  -- A request of an initialised latlearn is answered.
  reply-Outcome :
      (c : Call) (P : Answer c → Type 0) (w : World)
      → is_quiet c ≡ true
      → ((l : Latlearn) → Calm l → Replies P (attempt e w.tick c l))
      → Ready w.latlearn
      → Outcome e (call c) w P []
  reply-Outcome c P w quiet replied ready =
      let (l, q, calm) = take_turns-Calm e w.tick (e.turns w.tick) w.latlearn ready.0 in
      let (a, m, r, d, good) = replied l calm in
      let p = performed e c w l m a q r in
      let on = perform_on e c w _ a p ready.1 in
      subst (Outcome e (call c) w P) (ap (map key_of) (ended_quiet c a quiet))
        (performed-Outcome e c w m a P p (d, on) (good on))

  pub report-Outcome :
      (params : List Bytes) (w : World)
      → Ready w.latlearn
      → Outcome e (call (ask_report params)) w IsTrue []
  report-Outcome params w ready =
      reply-Outcome (ask_report params) IsTrue w refl (report-Replies e w.tick params) ready

  pub values-Outcome :
      (span : Bytes) (w : World)
      → Ready w.latlearn
      → Outcome e (call (ask_values span)) w IsReply []
  values-Outcome span w ready =
      reply-Outcome (ask_values span) IsReply w refl (values-Replies e w.tick span) ready

  pub b2-Outcome :
      (name variant : Bytes) (w : World)
      → Ready w.latlearn
      → Outcome e (call_b2 name variant) w (Begun name variant) []
  b2-Outcome name variant w ready =
      then-Outcome e (call now) (λ t. returns (ssu_before name variant t)) w Any
        (Begun name variant) [] [] (quiet-Outcome now w refl ready)
        (λ t v r p.
          returns-Outcome e (ssu_before name variant t) v (Begun name variant) r
            (unfold ssu_before before in record { name = refl; variant = refl; fresh = refl }))

  -- A span from `B2` to `A`.
  pub measured-Outcome :
      (name variant : Bytes) (w : World)
      → Ready w.latlearn
      → Outcome e
          (call_b2 name variant >>= λ ssu. call_a ssu >> returns tt)
          w
          Any
          ((name, variant) ∷ [])
  measured-Outcome name variant w ready =
      and_then-Outcome e (b2-Outcome name variant w ready) (λ ssu v r b.
        and_quietly-Outcome e (end_fresh-Outcome e none ssu v name variant r b)
          (λ a u s m. returns-Outcome e tt u Any s tt))

  -- A quiet call, and what follows it.
  pub past-Outcome :
      {A : Type 0} {Q : A → Type 0} {ks : List (Bytes × Bytes)} (c : Call)
      {k : Answer c → Program A} (w : World)
      → is_quiet c ≡ true
      → Ready w.latlearn
      → ((a : Answer c) (v : World) → Ready v.latlearn → Outcome e (k a) v Q ks)
      → Outcome e (calls c k) w Q ks
  past-Outcome c w quiet ready go =
      and_then-Outcome e (quiet-Outcome c w quiet ready) (λ a v r p. go a v r)

  -- A whole span, and what follows it.
  pub measured_then-Outcome :
      {A : Type 0} {Q : A → Type 0} {ks : List (Bytes × Bytes)} (name variant : Bytes)
      {p : Program A} (w : World)
      → Ready w.latlearn
      → ((v : World) → Ready v.latlearn → Outcome e p v Q ks)
      → Outcome e (call_b2 name variant >>= λ ssu. call_a ssu >> p) w Q ((name, variant) ∷ ks)
  measured_then-Outcome name variant w ready go =
      and_then-Outcome e (b2-Outcome name variant w ready) (λ ssu v r b.
        and_then-Outcome e (end_fresh-Outcome e none ssu v name variant r b) (λ a u s m. go u s))

  -- Several quiet calls, and what follows them.
  pub quiet_calls-Outcome :
      {A : Type 0} {Q : A → Type 0} {ks : List (Bytes × Bytes)} {p : Program A} (cs : List Call)
      (w : World)
      → all_quiet cs ≡ true
      → Ready w.latlearn
      → ((v : World) → Ready v.latlearn → Outcome e p v Q ks)
      → Outcome e (all_calls cs p) w Q ks
  quiet_calls-Outcome [] w quiet ready go = go w ready
  quiet_calls-Outcome (c ∷ cs) w quiet ready go =
      past-Outcome c w (ground arith) ready (λ a v r. quiet_calls-Outcome cs v (ground arith) r go)

  -- Several spans, and what follows them.
  pub spans-Outcome :
      {A : Type 0} {Q : A → Type 0} {js : List (Bytes × Bytes)} {p : Program A}
      (ks : List (Bytes × Bytes)) (w : World)
      → Ready w.latlearn
      → ((v : World) → Ready v.latlearn → Outcome e p v Q js)
      → Outcome e (all_spans ks p) w Q (ks ++ js)
  spans-Outcome [] w ready go = go w ready
  spans-Outcome ((name, variant) ∷ ks) w ready go =
      measured_then-Outcome name variant w ready (λ v r. spans-Outcome ks v r go)
