-- ===== src/Client/Started.antt =====
-- A program that initialises latlearn first: where its samples begin.
use latlearn.Common.{
  ℕ, zero, suc, ◌≡◌, refl, sym, ap, ◌∙◌, subst, Bytes, false, true, some, List, [], ◌++◌,
  gather-append,
}
use latlearn.Registry.{init_registry}
use latlearn.State.{Latlearn}
use latlearn.Api.{init2}
use latlearn.System.Invariant.{Inv, init2_first}
use latlearn.System.Completed.{init2_done}
use latlearn.Client.{init_spans, Program, ◌>>=◌, Env, World, take_turns, attempt, run}
use latlearn.Client.Sends.{sample_ended, recorded, Sends, Sends-joined}
use latlearn.Client.Runs.{Sent, run-Sent}
use latlearn.Client.Calm.{Calm, turn_off}
use latlearn.Client.Total.{performed, init2-Calm, run_calls}
use latlearn.Client.Programs.{call_init2}

-- An initialised latlearn with no sample yet, from where the samples of the world `v` have been sent.
pub record Opened (e : Env) (spans_app : List Bytes) (v : World) : Type 0 where
  pub first : Latlearn
  pub inv : Inv first
  pub completed : first.init_completed ≡ true
  pub fresh : first.registry ≡ init_registry spans_app
  pub empty : first.comm_outer ≡ []
  pub sends : Sends e.host first v.latlearn (recorded v.ended)

module _ (e : Env) where
  take_turns_off :
      (tick n : ℕ) (l : Latlearn)
      → Calm l
      → l.init_completed ≡ false
      → take_turns e tick n l ≡ some l
  unfolding take_turns
  take_turns_off tick zero l c off = refl
  take_turns_off tick (suc n) l c off =
      rw (turn_off e.host (e.serve_clock tick n) l c off, take_turns)
        (take_turns_off tick n l c off)

  pub run_init-Opened :
      {A : Type 0} (spans_app : List Bytes) (k : Unit {0} → Program A) (w v : World) (a : A)
      → Calm w.latlearn
      → w.latlearn.init_completed ≡ false
      → w.ended ≡ []
      → run e (call_init2 spans_app >>= k) w ≡ some (a, v)
      → Opened e spans_app v
  run_init-Opened spans_app k w v a calm off none_ended q =
      let t = e.clock w.tick in
      let l = init2 w.latlearn spans_app t in
      let p =
        performed e (init_spans spans_app) w w.latlearn l tt
          (take_turns_off w.tick (e.turns w.tick) w.latlearn calm off) (unfold attempt in refl) in
      let u : World = record { latlearn = l; tick = suc w.tick; ended = w.ended ++ [] } in
      let rest : run e (k tt) u ≡ some (a, v) =
        sym (run_calls e (init_spans spans_app) k w u tt p) ∙ q in
      let s = run-Sent e (k tt) u a v rest in
      let new : s.new ≡ v.ended = sym (s.ended ∙ ap (λ xs. (xs ++ []) ++ s.new) none_ended) in
      let first = init2_first w.latlearn spans_app t (calm.inv.once ∙ off) off in
      record {
        first = l;
        inv = (init2-Calm e.host w.latlearn spans_app t calm).inv;
        completed = init2_done w.latlearn spans_app t calm.inv.once;
        fresh = ap (λ (x : Latlearn). x.registry) first;
        empty = ap (λ (x : Latlearn). x.comm_outer) first;
        sends = subst (λ xs. Sends e.host l v.latlearn (recorded xs)) new s.sends;
      }

  -- What comes after it.
  pub Opened-later :
      (spans_app : List Bytes) (u v : World)
      → Opened e spans_app u
      → Sent e u v
      → Opened e spans_app v
  Opened-later spans_app u v b s = record {
    first = b.first;
    inv = b.inv;
    completed = b.completed;
    fresh = b.fresh;
    empty = b.empty;
    sends =
        rw s.ended
          (rw (gather-append sample_ended u.ended s.new) (Sends-joined e.host b.sends s.sends));
  }
