-- ===== src/Examples/Workers.antt =====
-- example-app5.go run on a concrete host.
use mathlib.Core.List.{map}
use latlearn.Apps.App5.Rest.{IsPast}
use latlearn.Common.{
  sym, subst, ℤ, pos, inl, ◌∷◌, arith, ◌+◌, ◌≤◌, ◌≡◌, refl, Bytes, true, some, [], All, codes,
}
use latlearn.Common.Int.{wrap64}
use latlearn.Report.Text.{sprint_d}
use latlearn.State.{Latlearn}
use latlearn.Registry.Store.{stats}
use latlearn.Report.Whole.Shown.{Shows, row_of}
use latlearn.Client.Programs.{call_report, call_stop}
use latlearn.Apps.App5.Report.{workers_report, worker_has_sample}
use latlearn.Client.{World, run}
use latlearn.Client.Programs.{world_start}
use latlearn.Client.Outcome.{Outcome, samples}
use latlearn.Client.Outcome.Loops.{process_start-Calm}
use latlearn.Client.Pool.Tally.{count}
use latlearn.Apps.App5.{
  Context, background, with_cancel, with_timeout, with_value, main_before, main_workers, over,
}
use latlearn.Apps.App5.Process.{Process, Runs, all_begun, worker_key}
use latlearn.Apps.App5.Finish.{Comes, IsOver, main_past, can_end}
use latlearn.Apps.App5.Started.{KeyOf}
use latlearn.Apps.App5.Main.{
  main_process, main_process-InHand, MainRun, overhead_samples, main_keys, IsOfMain,
  main_before-Outcome, main_runs, main_can_end, main_past-no_rounds, main_run-rounds,
}
use latlearn.Examples.{linux, world}

before_workers : Outcome world main_before world_start (λ ok. ok ≡ true) overhead_samples
before_workers = main_before-Outcome world world_start process_start-Calm

-- `main` gets past its workers before any of them has moved.
past_workers : Comes world (main_process before_workers.world) (IsOver world)
past_workers =
    main_past world main_workers (main_process before_workers.world) refl before_workers.ready

-- Then they all end.
all_ended : (q : Process) × Runs world past_workers.0 q × (q.workers ≡ [])
all_ended =
    let (q, r, ready, none_left, ok, past) =
      can_end world past_workers.1 before_workers.ready refl
        (main_process-InHand before_workers.world) in
    (q, r, none_left)

main_past-no_rounds_example : all_begun all_ended.1 ≡ []
main_past-no_rounds_example =
    main_past-no_rounds world before_workers.world past_workers.0 all_ended.0 past_workers.1
      all_ended.1 (subst IsPast (sym past_workers.3.1) tt)

main_can_end_example :
    (left : Process) × Runs world past_workers.0 left
    × (left.main ≡ over true)
    × (left.workers ≡ [])
    × (end : World) × (run world call_stop left.world ≡ some (true, end))
main_can_end_example =
    main_can_end world world_start before_workers.world before_workers.answer past_workers.0
      process_start-Calm before_workers.runs past_workers.1

main_run : (m : MainRun world world_start) × (m.left.workers ≡ [])
main_run = main_runs world world_start process_start-Calm

abbrev a_worker : Bytes × Bytes
a_worker = (codes "task-537/worker-3", [])

main_run-rounds_example :
    (main_run.0.logged ≡ (true, true))
    × All (KeyOf IsOfMain) (all_begun main_run.0.runs_workers)
    × (count a_worker (samples main_run.0.world)
        ≤ count a_worker (samples world_start)
          + count a_worker overhead_samples
          + count a_worker (all_begun main_run.0.runs_workers))
    × (count a_worker (samples world_start)
          + count a_worker overhead_samples
          + count a_worker (all_begun main_run.0.runs_workers)
        ≤ count a_worker (samples main_run.0.world)
          + count a_worker (map worker_key main_run.0.left.workers))
    × (count a_worker main_keys ≤ count a_worker (all_begun main_run.0.runs_workers))
main_run-rounds_example = main_run-rounds world world_start main_run.0 a_worker process_start-Calm

abbrev worker_3 : Context
worker_3 = with_value (codes "task-537/worker-3") (with_timeout 4 (with_cancel 0 background))

some_of_worker_3 : 1 ≤ count a_worker (samples main_run.0.left.world)
unfolding sprint_d
some_of_worker_3 =
    worker_has_sample world world_start main_run.0.started main_run.0.measured main_run.0.left
      process_start-Calm refl main_run.0.run_before main_run.0.runs_workers worker_3
      main_run.0.logged.0 main_run.0.past main_run.1 (inl (3, omega arith, refl))

workers_report_example :
    (v : World) × (from : Latlearn) × (text : Bytes) × (at : ℤ) × (run world call_report
        main_run.0.left.world
      ≡ some (true, v))
    × (v.latlearn.files ≡ (from.report_fpath, text) ∷ from.files)
    × Shows text (row_of linux from at (codes "task-537/worker-3"))
    × ((stats from.registry (codes "task-537/worker-3")).weight
        ≡ wrap64 (pos (count a_worker (samples main_run.0.left.world))))
    × (count a_worker (samples main_run.0.left.world)
        ≤ count a_worker (all_begun main_run.0.runs_workers))
    × (count a_worker (all_begun main_run.0.runs_workers)
        ≤ count a_worker (samples main_run.0.left.world)
          + count a_worker (map worker_key main_run.0.left.workers))
unfolding sprint_d
workers_report_example =
    workers_report world world_start main_run.0.started main_run.0.measured main_run.0.left worker_3
      main_run.0.runs_workers (λ path. refl) process_start-Calm refl refl main_run.0.run_before
      (inl (3, omega arith, refl)) some_of_worker_3
