-- ===== src/Client/Outcome/Ends.antt =====
-- A program that stops latlearn, after all else.
use latlearn.Common.{
  ◌≡◌, refl, sym, ap, ◌∙◌, subst, Bytes, Bool, true, false, some, List, [], ◌++◌, append-nil,
  append_assoc, suc, arith,
}
use mathlib.Core.List.{map}
use latlearn.State.{Latlearn}
use latlearn.Api.{is_open, stop}
use latlearn.Api.Sent.{stop-Sent}
use latlearn.Api.Fits.{stop-Returns}
use latlearn.Client.{
  returns, ask_stop, Program, returns, ◌>>=◌, Env, World, with_room, attempt, run,
}
use latlearn.Client.Calm.{Calm}
use latlearn.Client.Waits.{take_turns-Calm, with_room_returns}
use latlearn.Client.Total.{performed}
use latlearn.Client.Programs.{call_stop, run->>=}
use latlearn.Client.Outcome.{Ready, key_of, samples, Outcome, run-call, perform_on}

-- From `w`, the program returns an answer that is `P`, and has ended samples of `ks`, in that order.
pub record Ends {A : Type 0} (e : Env) (p : Program A) (w : World) (P : A → Type 0)
    (ks : List (Bytes × Bytes)) : Type 0 where
  pub answer : A
  pub world : World
  pub runs : run e p w ≡ some (answer, world)
  pub ended : samples world ≡ samples w ++ ks
  pub holds : P answer

-- A stop that returns from an initialised latlearn returns true.
abbrev Stops : Latlearn × Bool → Type 0
Stops (m, ok) = m.init_completed ≡ true → ok ≡ true

stop_open : (l m : Latlearn) (ok : Bool) → is_open l ≡ true → stop l ≡ some (m, ok) → ok ≡ true
unfolding stop
stop_open l m false on q = ground arith
stop_open l m true on q = refl

module _ (e : Env) where
  stop_sound : (l : Latlearn) (r : Latlearn × Bool) → stop l ≡ some r → Calm l → Stops r
  stop_sound l (m, ok) q c =
      λ on. stop_open l m ok (ground (arith, c.unfinished, (stop-Sent l m ok q).init_completed)) q

  stop_attempted :
      (w : World) (l m : Latlearn) (ok : Bool)
      → with_room e w.tick stop l ≡ some (m, ok)
      → attempt e w.tick ask_stop l ≡ some (ok, m)
  unfolding attempt
  stop_attempted w l m ok q = rw (q, attempt) refl

  pub stop-Ends : (w : World) → Ready w.latlearn → Ends e call_stop w (λ ok. ok ≡ true) []
  stop-Ends w ready =
      let (l, q, c) = take_turns-Calm e w.tick (e.turns w.tick) w.latlearn ready.0 in
      let ((m, ok), r, stops) = with_room_returns e w.tick stop Stops stop-Returns stop_sound l c in
      let p = performed e ask_stop w l m ok q (stop_attempted w l m ok r) in
      record {
        answer = ok;
        world = record { latlearn = m; tick = suc w.tick; ended = w.ended ++ [] };
        runs = run-call e ask_stop w _ ok p;
        ended = ap (map key_of) (append-nil w.ended) ∙ sym (append-nil (samples w));
        holds = stops (perform_on e ask_stop w _ ok p ready.1);
      }

  pub of_run-Ends :
      {A : Type 0} {p : Program A} {w v : World} {a : A} {P : A → Type 0}
      {ks : List (Bytes × Bytes)}
      → Ends e p w P ks
      → run e p w ≡ some (a, v)
      → (samples v ≡ samples w ++ ks) × P a
  of_run-Ends {A} {p} {w} {v} {a} {P} {ks} o q =
      let same : some (o.answer, o.world) ≡ some (a, v) = sym o.runs ∙ q in
      let pair : (o.answer, o.world) ≡ (a, v) = ground arith in
      subst (λ (r : A × World). (samples r.1 ≡ samples w ++ ks) × P r.0) pair (o.ended, o.holds)

  pub returns-Ends :
      {A : Type 0} (a : A) (w : World) (P : A → Type 0) → P a → Ends e (returns a) w P []
  returns-Ends a w P p = record {
    answer = a;
    world = w;
    runs = unfold run in refl;
    ended = sym (append-nil (samples w));
    holds = p;
  }

  pub and_then-Ends :
      {A B : Type 0} {p : Program A} {f : A → Program B} {w : World} {P : A → Type 0}
      {Q : B → Type 0} {ks js : List (Bytes × Bytes)}
      → Outcome e p w P ks
      → ((a : A) (v : World) → Ready v.latlearn → P a → Ends e (f a) v Q js)
      → Ends e (p >>= f) w Q (ks ++ js)
  and_then-Ends {p = p} {f = f} {w = w} {ks = ks} {js = js} o k =
      let q = k o.answer o.world o.ready o.holds in
      record {
        answer = q.answer;
        world = q.world;
        runs = run->>= e p f w o.world o.answer o.runs ∙ q.runs;
        ended = q.ended ∙ ap (λ xs. xs ++ js) o.ended ∙ append_assoc (samples w) ks js;
        holds = q.holds;
      }

  pub and_quietly-Ends :
      {A B : Type 0} {p : Program A} {f : A → Program B} {w : World} {P : A → Type 0}
      {Q : B → Type 0} {ks : List (Bytes × Bytes)}
      → Outcome e p w P ks
      → ((a : A) (v : World) → Ready v.latlearn → P a → Ends e (f a) v Q [])
      → Ends e (p >>= f) w Q ks
  and_quietly-Ends {p = p} {f = f} {w = w} {Q = Q} {ks = ks} o k =
      subst (Ends e (p >>= f) w Q) (append-nil ks) (and_then-Ends o k)

  -- What follows the stop.
  pub stopped-Ends :
      {A B : Type 0} {p : Program A} {f : A → Program B} {w : World} {P : A → Type 0}
      {Q : B → Type 0} {ks : List (Bytes × Bytes)}
      → Ends e p w P ks
      → ((a : A) (v : World) → P a → Ends e (f a) v Q [])
      → Ends e (p >>= f) w Q ks
  stopped-Ends {p = p} {f = f} {w = w} {ks = ks} o k =
      let q = k o.answer o.world o.holds in
      record {
        answer = q.answer;
        world = q.world;
        runs = run->>= e p f w o.world o.answer o.runs ∙ q.runs;
        ended = q.ended ∙ append-nil (samples o.world) ∙ o.ended;
        holds = q.holds;
      }
