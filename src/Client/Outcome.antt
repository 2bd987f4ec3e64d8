-- ===== src/Client/Outcome.antt =====
-- What a program comes to from a state in which latlearn is initialised: its answer, and the samples
-- that it ends, by span and variant.
pub mod Samples
pub mod Calls
pub mod Loops
pub mod Ends
pub mod Weights
use latlearn.Common.{
  suc, ◌≡◌, refl, sym, ap, ◌∙◌, subst, Bytes, true, some, List, [], ◌++◌, append-nil, append_assoc,
  arith,
}
use mathlib.Core.List.{map, map-append}
use latlearn.State.{Latlearn}
use latlearn.Span.{SpanSampleUnderway}
use latlearn.System.Completed.{Reach-completed}
use latlearn.Client.{
  Call, Answer, Program, returns, call, ◌>>=◌, Env, World, ended_by, perform, run,
}
use latlearn.Client.Runs.{perform-Reach}
use latlearn.Client.Calm.{Calm}
use latlearn.Client.Total.{run_calls}
use latlearn.Client.Programs.{run->>=}

-- A calm and initialised latlearn.
abbrev pub Ready : Latlearn → Type 0
Ready l = Calm l × (l.init_completed ≡ true)

abbrev pub key_of : SpanSampleUnderway → Bytes × Bytes
key_of ssu = (ssu.name, ssu.variant)

abbrev pub samples : World → List (Bytes × Bytes)
samples w = map key_of w.ended

-- From `w`, the program returns an answer that is `P`, leaves latlearn ready, and has ended samples
-- of `ks`, in that order.
pub record Outcome {A : Type 0} (e : Env) (p : Program A) (w : World) (P : A → Type 0)
    (ks : List (Bytes × Bytes)) : Type 0 where
  pub answer : A
  pub world : World
  pub runs : run e p w ≡ some (answer, world)
  pub ready : Ready world.latlearn
  pub ended : samples world ≡ samples w ++ ks
  pub holds : P answer

abbrev pub Any : {A : Type 0} → A → Type 0
Any a = Unit {0}

module _ (e : Env) where
  pub returns-Outcome :
      {A : Type 0} (a : A) (w : World) (P : A → Type 0)
      → Ready w.latlearn
      → P a
      → Outcome e (returns a) w P []
  returns-Outcome a w P r p = record {
    answer = a;
    world = w;
    runs = unfold run in refl;
    ready = r;
    ended = sym (append-nil (samples w));
    holds = p;
  }

  pub then-Outcome :
      {A B : Type 0} (p : Program A) (f : A → Program B) (w : World) (P : A → Type 0)
      (Q : B → Type 0) (ks js : List (Bytes × Bytes))
      → Outcome e p w P ks
      → ((a : A) (v : World) → Ready v.latlearn → P a → Outcome e (f a) v Q js)
      → Outcome e (p >>= f) w Q (ks ++ js)
  then-Outcome p f w P Q ks js o k =
      let q = k o.answer o.world o.ready o.holds in
      record {
        answer = q.answer;
        world = q.world;
        runs = run->>= e p f w o.world o.answer o.runs ∙ q.runs;
        ready = q.ready;
        ended = q.ended ∙ ap (λ xs. xs ++ js) o.ended ∙ append_assoc (samples w) ks js;
        holds = q.holds;
      }

  pub and_then-Outcome :
      {A B : Type 0} {p : Program A} {f : A → Program B} {w : World} {P : A → Type 0}
      {Q : B → Type 0} {ks js : List (Bytes × Bytes)}
      → Outcome e p w P ks
      → ((a : A) (v : World) → Ready v.latlearn → P a → Outcome e (f a) v Q js)
      → Outcome e (p >>= f) w Q (ks ++ js)
  and_then-Outcome {p = p} {f = f} {w = w} {P = P} {Q = Q} {ks = ks} {js = js} o k =
      then-Outcome p f w P Q ks js o k

  pub and_quietly-Outcome :
      {A B : Type 0} {p : Program A} {f : A → Program B} {w : World} {P : A → Type 0}
      {Q : B → Type 0} {ks : List (Bytes × Bytes)}
      → Outcome e p w P ks
      → ((a : A) (v : World) → Ready v.latlearn → P a → Outcome e (f a) v Q [])
      → Outcome e (p >>= f) w Q ks
  and_quietly-Outcome {p = p} {f = f} {w = w} {P = P} {Q = Q} {ks = ks} o k =
      subst (Outcome e (p >>= f) w Q) (append-nil ks) (then-Outcome p f w P Q ks [] o k)

  pub weaker-Outcome :
      {A : Type 0} (p : Program A) (w : World) (P Q : A → Type 0) (ks : List (Bytes × Bytes))
      → ((a : A) → P a → Q a)
      → Outcome e p w P ks
      → Outcome e p w Q ks
  weaker-Outcome p w P Q ks f o = record {
    answer = o.answer;
    world = o.world;
    runs = o.runs;
    ready = o.ready;
    ended = o.ended;
    holds = f o.answer o.holds;
  }

  -- What holds of one run of a program holds of each.
  pub of_run :
      {A : Type 0} {p : Program A} {w v : World} {a : A} {P : A → Type 0}
      {ks : List (Bytes × Bytes)}
      → Outcome e p w P ks
      → run e p w ≡ some (a, v)
      → Ready v.latlearn × (samples v ≡ samples w ++ ks) × P a
  of_run {A} {p} {w} {v} {a} {P} {ks} o q =
      let same : some (o.answer, o.world) ≡ some (a, v) = sym o.runs ∙ q in
      let pair : (o.answer, o.world) ≡ (a, v) = ground arith in
      subst (λ (r : A × World). Ready r.1.latlearn × (samples r.1 ≡ samples w ++ ks) × P r.0) pair
        (o.ready, o.ended, o.holds)

  pub run-call :
      (c : Call) (w v : World) (a : Answer c)
      → perform e c w ≡ some (a, v)
      → run e (call c) w ≡ some (a, v)
  run-call c w v a q = run_calls e c returns w v a q ∙ (unfold run in refl)

  -- A call that has been performed.
  pub performed-Outcome :
      (c : Call) (w : World) (m : Latlearn) (a : Answer c) (P : Answer c → Type 0)
      → perform e c w
        ≡ some (a, record { latlearn = m; tick = suc w.tick; ended = w.ended ++ ended_by c a })
      → Ready m
      → P a
      → Outcome e (call c) w P (map key_of (ended_by c a))
  performed-Outcome c w m a P q ready p = record {
    answer = a;
    world = record { latlearn = m; tick = suc w.tick; ended = w.ended ++ ended_by c a };
    runs = run-call c w _ a q;
    ready = ready;
    ended = map-append key_of w.ended (ended_by c a);
    holds = p;
  }

  -- What was initialised before a call is initialised after it.
  pub perform_on :
      (c : Call) (w v : World) (a : Answer c)
      → perform e c w ≡ some (a, v)
      → w.latlearn.init_completed ≡ true
      → v.latlearn.init_completed ≡ true
  perform_on c w v a q on = Reach-completed e.host (perform-Reach e c w a v q) on
