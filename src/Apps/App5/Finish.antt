-- ===== src/Apps/App5/Finish.antt =====
-- example-app5.go can come to its end: `main` past its workers, and these all gone.
use latlearn.Common.{ℕ, ◌≡◌, refl, sym, subst, ◌∙◌, Bytes, Bool, true, List, [], ◌∷◌, All}
use latlearn.Client.{ask_report, sleep, Program, returns, calls, Env}
use latlearn.Client.Total.{perform-Finishes}
use latlearn.Client.Outcome.{Ready, of_run, run-call}
use latlearn.Client.Outcome.Calls.{report-Outcome}
use latlearn.Client.Pool.Tally.{counted}
use latlearn.Client.Pool.Owed.{Owes, quiet-Owes}
use latlearn.Apps.App5.{
  Context, is_done, Worker, Orchestration, over, makes_cancel, makes_timeout, starts, sleeps,
  reports, cancels,
}
use latlearn.Apps.App5.Process.{
  Process, Move, makes_call, breaks, ProcessStep, main_makes_cancel, main_makes_timeout,
  main_starts, main_sleeps, main_reports, main_cancels, worker_moves, Runs, here, step_on, runs_on,
}
use latlearn.Apps.App5.Rounds.{AllOwing, Runs-Pays}
use latlearn.Apps.App5.Done.{InHand, Runs-InHand}
use latlearn.Apps.App5.Rest.{IsPast, InHand-Winding}

abbrev any_key : Bytes × Bytes
any_key = ([], [])

module _ (e : Env) where
  -- A run from `p` whose end is `P`, with latlearn ready.
  abbrev pub Comes : Process → (Process → Type 0) → Type 0
  Comes p P = (q : Process) × Runs e p q × Ready q.world.latlearn × P q

  comes_to : {p q : Process} (P : Process → Type 0) → ProcessStep e p q → Comes q P → Comes p P
  comes_to P s (q, r, ready, holds) = (q, runs_on e (step_on here s) r, ready, holds)

  abbrev pub IsOver : Process → Type 0
  IsOver q = (ok : Bool) × (q.main ≡ over ok)

  pub main_past :
      (main : Orchestration) (p : Process) → p.main ≡ main → Ready p.world.latlearn → Comes p IsOver
  main_past (over ok) p q ready = (p, here, ready, (ok, q))
  main_past (makes_cancel k) p q ready =
      comes_to IsOver (main_makes_cancel k q) (main_past (k p.next_id) _ refl ready)
  main_past (makes_timeout timeout k) p q ready =
      comes_to IsOver (main_makes_timeout timeout k q) (main_past (k p.next_id) _ refl ready)
  main_past (starts ctx k) p q ready =
      comes_to IsOver (main_starts ctx k q) (main_past k _ refl ready)
  main_past (sleeps duration k) p q ready =
      let (a, v, r, calm) = perform-Finishes e (sleep duration) p.world refl ready.0 in
      let owes = quiet-Owes e (counted any_key) (sleep duration) returns 0 refl (λ a. refl) in
      let (i, j, sum, gained, rest) = owes.1 p.world v tt ready r in
      comes_to IsOver (main_sleeps duration k v q r) (main_past k _ refl gained.ready)
  main_past (reports k) p q ready =
      let (ok, v, r, calm) = perform-Finishes e (ask_report []) p.world refl ready.0 in
      let (later, ended, holds) =
        of_run e (report-Outcome e [] p.world ready) (run-call e (ask_report []) p.world v ok r) in
      comes_to IsOver (main_reports k ok v q r) (main_past (k ok) _ refl later)
  main_past (cancels id k) p q ready =
      comes_to IsOver (main_cancels id k q) (main_past k _ refl ready)

  -- The first worker, whose context is done, ends its round and is gone.
  abbrev Leaves : Process → List Worker → Process → Type 0
  Leaves p ws q = (q.workers ≡ ws) × (q.main ≡ p.main) × (q.ended ≡ p.ended)

  first_ends :
      (ctx : Context) (rest : Program (Unit {0})) (ws : List Worker) (p : Process) (n : ℕ)
      → p.workers ≡ record { ctx = ctx; rest = rest } ∷ ws
      → is_done p.ended ctx ≡ true
      → Owes e (counted any_key) rest n
      → Ready p.world.latlearn
      → Comes p (Leaves p ws)
  first_ends ctx (returns a) ws p n at done owes ready =
      comes_to (Leaves p ws)
        (worker_moves
          (subst (λ xs. Move e p.ended p.world xs ws p.world) (sym at) (breaks ctx ws done)))
        (_, here, ready, (refl, refl, refl))
  first_ends ctx (calls c k) ws p n at done owes ready =
      let (a, v, q, calm) = perform-Finishes e c p.world owes.0 ready.0 in
      let (i, j, sum, gained, later) = owes.1 p.world v a ready q in
      comes_to (Leaves p ws)
        (worker_moves (
          subst (λ xs. Move e p.ended p.world xs (record { ctx = ctx; rest = k a } ∷ ws) v) (sym at)
            (makes_call ctx c k a v ws q)))
        (first_ends ctx (k a) ws _ j refl done later gained.ready)

  workers_gone :
      (ws : List Worker) (p : Process) (n : ℕ)
      → p.workers ≡ ws
      → All (λ (worker : Worker). is_done p.ended worker.ctx ≡ true) ws
      → AllOwing e any_key ws n
      → Ready p.world.latlearn
      → Comes p (λ q. (q.workers ≡ []) × (q.main ≡ p.main))
  workers_gone [] p n at done owing ready = (p, here, ready, (at, refl))
  workers_gone (worker ∷ ws) p n at (done, all_done) (i, j, sum, owes, few, rest) ready =
      let (q, r, ready, (at_ws, main, ended)) =
        first_ends worker.ctx worker.rest ws p i at done owes ready in
      let still =
        subst (λ ids. All (λ (worker : Worker). is_done ids worker.ctx ≡ true) ws) (sym ended)
          all_done in
      let (q', r', ready', (none_left, main')) = workers_gone ws q j at_ws still rest ready in
      (q', runs_on e r r', ready', (none_left, main' ∙ main))

  -- Wherever `main` and its workers have got to, in whatever order: `main` can get past its workers,
  -- and these can then all end.
  pub can_end :
      {P : Context → Type 0} {p q : Process} (r : Runs e p q)
      → Ready p.world.latlearn
      → p.workers ≡ []
      → InHand P p
      → (q' : Process) × Runs e q q'
        × Ready q'.world.latlearn
        × (q'.workers ≡ [])
        × (ok : Bool) × (q'.main ≡ over ok)
  can_end {P} {p} {q} r ready none_yet h =
      let owing : AllOwing e any_key p.workers 0 =
        subst (λ ws. AllOwing e any_key ws 0) (sym none_yet) refl in
      let (i, j, sum, gained, later) = Runs-Pays e any_key 0 r ready owing in
      let (q1, r1, ready1, (ok, past)) = main_past q.main q refl gained.ready in
      let (i1, j1, sum1, gained1, left) = Runs-Pays e any_key j r1 gained.ready later in
      let w = InHand-Winding q1 (Runs-InHand (runs_on e r r1) h) (subst IsPast (sym past) tt) in
      let (q2, r2, ready2, (none_left, main)) =
        workers_gone q1.workers q1 j1 refl w.done left ready1 in
      (q2, runs_on e r1 r2, ready2, none_left, ok, main ∙ past)
