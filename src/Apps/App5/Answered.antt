-- ===== src/Apps/App5/Answered.antt =====
-- The answer of the last report of example-app5.go, while workers may run.
use latlearn.Common.{ℕ, ◌+◌, ◌≡◌, subst, ℤ, Bytes, true, [], suc, zero}
use latlearn.Common.Int.{pos_part}
use latlearn.Client.{ask_report, Env}
use latlearn.Client.Outcome.{Ready, of_run, run-call}
use latlearn.Client.Outcome.Calls.{report-Outcome}
use latlearn.Apps.App5.{
  Context, background, with_cancel, Orchestration, over, makes_cancel, makes_timeout, starts,
  sleeps, reports, cancels, seconds, start_workers, run_workers,
}
use latlearn.Apps.App5.Process.{
  Process, ProcessStep, main_makes_cancel, main_makes_timeout, main_starts, main_sleeps,
  main_reports, main_cancels, timer_fires, worker_moves, Runs, here, step_on,
}
use latlearn.Apps.App5.Rounds.{AllOwing, Runs-Pays}

-- The answers of the reports are true, and so is the last one.
abbrev pub Answered : Orchestration → Type 0
Answered (over ok) = ok ≡ true
Answered (reports next) = Answered (next true)
Answered (makes_cancel next) = (i : ℕ) → Answered (next i)
Answered (makes_timeout timeout next) = (i : ℕ) → Answered (next i)
Answered (starts ctx next) = Answered next
Answered (sleeps duration next) = Answered next
Answered (cancels i next) = Answered next

module _ (e : Env) where
  ProcessStep-Answered :
      {p q : Process}
      → ProcessStep e p q
      → Ready p.world.latlearn
      → Answered p.main
      → Answered q.main
  ProcessStep-Answered {p} (main_makes_cancel k q) ready h =
      let a : Answered (makes_cancel k) = subst Answered q h in a p.next_id
  ProcessStep-Answered {p} (main_makes_timeout timeout k q) ready h =
      let a : Answered (makes_timeout timeout k) = subst Answered q h in a p.next_id
  ProcessStep-Answered (main_starts ctx k q) ready h = subst Answered q h
  ProcessStep-Answered (main_sleeps duration k v q r) ready h = subst Answered q h
  ProcessStep-Answered {p} (main_reports k ok v q r) ready h =
      let (later, ended, holds) =
        of_run e (report-Outcome e [] p.world ready) (run-call e (ask_report []) p.world v ok r) in
      let a : Answered (reports k) = subst Answered q h in rw holds a
  ProcessStep-Answered (main_cancels id k q) ready h = subst Answered q h
  ProcessStep-Answered (timer_fires id q) ready h = h
  ProcessStep-Answered (worker_moves m) ready h = h

  pub Runs-Answered :
      {p q : Process} (key : Bytes × Bytes) (n : ℕ)
      → Runs e p q
      → Ready p.world.latlearn
      → AllOwing e key p.workers n
      → Answered p.main
      → Answered q.main
  Runs-Answered key n here ready owing h = h
  Runs-Answered key n (step_on r s) ready owing h =
      let (i, j, sum, gained, later) = Runs-Pays e key n r ready owing in
      ProcessStep-Answered s gained.ready (Runs-Answered key n r ready owing h)

start_workers-Answered :
    (task_id timeout_secs : ℤ) (ctx : Context) (n i : ℕ) (next : Orchestration)
    → Answered next
    → Answered (start_workers task_id timeout_secs ctx n i next)
unfolding start_workers
start_workers-Answered task_id timeout_secs ctx zero i next h = h
start_workers-Answered task_id timeout_secs ctx (suc n) i next h =
    λ id2. start_workers-Answered task_id timeout_secs ctx n (i + 1) next h

pub run_workers-Answered :
    (task_id worker_qty timeout_secs cancel_secs : ℤ) (next : Orchestration)
    → Answered next
    → Answered (run_workers task_id worker_qty timeout_secs cancel_secs next)
unfolding run_workers
run_workers-Answered task_id worker_qty timeout_secs cancel_secs next h = λ id.
    start_workers-Answered task_id timeout_secs (with_cancel id background) (pos_part worker_qty) 0
      (sleeps (seconds cancel_secs) (cancels id next)) h
