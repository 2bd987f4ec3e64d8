-- ===== src/Apps/App5/Rest.antt =====
-- What example-app5.go does once `main` has cancelled the contexts of all its workers, and how it gets
-- there.
use latlearn.Common.{
  All-weaker, Bool, ℕ, ◌≡◌, refl, subst, inl, inr, true, List, [], ◌∷◌, All, arith,
}
use latlearn.Client.{Env, World}
use latlearn.Apps.App5.{
  Context, is_done, Worker, Orchestration, over, makes_cancel, makes_timeout, starts, sleeps,
  reports, cancels,
}
use latlearn.Apps.App5.Process.{
  Process, Move, makes_call, goes_on, breaks, another, ProcessStep, main_makes_cancel,
  main_makes_timeout, main_starts, main_sleeps, main_reports, main_cancels, timer_fires,
  worker_moves, Runs, here, step_on, begun_in, begun_by, all_begun,
}
use latlearn.Apps.App5.Done.{WillCancel, Covered, InHand, Runs-InHand, is_done-more, Move-All}

-- `main` is past its workers: it has at most its last report to wait for.
abbrev pub IsPast : Orchestration → Type 0
IsPast (over ok) = Unit
IsPast (reports next) = (ok : Bool) → IsPast (next ok)
IsPast (makes_cancel next) = ⊥
IsPast (makes_timeout timeout next) = ⊥
IsPast (starts ctx next) = ⊥
IsPast (sleeps duration next) = ⊥
IsPast (cancels id next) = ⊥

-- `main` is past its workers, and the context of each of those that still run is done.
pub record Winding (p : Process) : Type 0 where
  pub main : IsPast p.main
  pub done : All (λ (worker : Worker). is_done p.ended worker.ctx ≡ true) p.workers

past_no_cancel : (main : Orchestration) (id : ℕ) → IsPast main → WillCancel id main → ⊥
past_no_cancel (over ok) id past will = will
past_no_cancel (reports next) id past will = past_no_cancel (next true) id (past true) (will true)
past_no_cancel (makes_cancel next) id past will = past
past_no_cancel (makes_timeout timeout next) id past will = past
past_no_cancel (starts ctx next) id past will = past
past_no_cancel (sleeps duration next) id past will = past
past_no_cancel (cancels i next) id past will = past

past_done :
    (ended : List ℕ) (main : Orchestration) (worker : Worker)
    → IsPast main
    → Covered ended main worker
    → is_done ended worker.ctx ≡ true
past_done ended main worker past (inl done) = done
past_done ended main worker past (inr (id, on, will)) = absurd (past_no_cancel main id past will)

pub InHand-Winding : {P : Context → Type 0} (p : Process) → InHand P p → IsPast p.main → Winding p
InHand-Winding p h q = record {
  main = q;
  done =
      All-weaker (Covered p.ended p.main) (λ (worker : Worker). is_done p.ended worker.ctx ≡ true)
        p.workers (λ worker. past_done p.ended p.main worker q) h.covered;
}

module _ {e : Env} where
  no_round_in :
      {ended : List ℕ} {w v : World} {ws vs : List Worker} (m : Move e ended w ws vs v)
      → All (λ (worker : Worker). is_done ended worker.ctx ≡ true) ws
      → begun_in m ≡ []
  unfolding begun_in
  no_round_in (makes_call ctx c k a v ws q) done = refl
  no_round_in (goes_on ctx ws q) done = ground (arith, done.0)
  no_round_in (breaks ctx ws q) done = refl
  no_round_in (another worker m) done = no_round_in m done.1

  no_round_by : {p q : Process} (s : ProcessStep e p q) → Winding p → (begun_by s ≡ []) × Winding q
  unfolding begun_by
  no_round_by (main_makes_cancel k q) w = absurd (subst IsPast q w.main)
  no_round_by (main_makes_timeout timeout k q) w = absurd (subst IsPast q w.main)
  no_round_by (main_starts ctx k q) w = absurd (subst IsPast q w.main)
  no_round_by (main_sleeps duration k v q r) w = absurd (subst IsPast q w.main)
  no_round_by (main_reports k ok v q r) w =
      let past : IsPast (reports k) = subst IsPast q w.main in
      (refl, record { main = past ok; done = w.done })
  no_round_by (main_cancels id k q) w = absurd (subst IsPast q w.main)
  no_round_by {p} (timer_fires id q) w = (
    refl,
    record {
      main = w.main;
      done =
          All-weaker (λ (worker : Worker). is_done p.ended worker.ctx ≡ true)
            (λ (worker : Worker). is_done (id ∷ p.ended) worker.ctx ≡ true) p.workers
            (λ worker. is_done-more p.ended id worker.ctx) w.done;
    },
  )
  no_round_by {p} (worker_moves m) w = (
    no_round_in m w.done,
    record { main = w.main; done = Move-All (λ ctx. is_done p.ended ctx ≡ true) m w.done },
  )

  no_rounds : {p q : Process} (r : Runs e p q) → Winding p → (all_begun r ≡ []) × Winding q
  unfolding all_begun
  no_rounds here w = (refl, w)
  no_rounds (step_on r s) w =
      let (none_yet, v) = no_rounds r w in
      let (none_now, u) = no_round_by s v in (rw (none_yet, none_now) refl, u)

  -- Once `main` is past its workers, no worker begins another round, in whatever order all run, where
  -- `main` was to end the contexts of those that it starts.
  pub no_rounds_after_main :
      {P : Context → Type 0} {p q q' : Process} (r : Runs e p q) (r' : Runs e q q')
      → InHand P p
      → IsPast q.main
      → all_begun r' ≡ []
  no_rounds_after_main {q = q} r r' h ended =
      (no_rounds r' (InHand-Winding q (Runs-InHand r h) ended)).0
