-- ===== src/Apps/App5/Main.antt =====
-- `main` of example-app5.go, from its start to its deferred function.
use latlearn.Common.{
  ℕ, ◌+◌, ◌≤◌, ◌<◌, ◌≡◌, ◌⊎◌, inl, inr, refl, ap, subst, ◌∙◌, pos, negsuc, Bytes, Bool, true, false,
  some, List, [], ◌∷◌, ◌++◌, codes, append-nil, All, arith,
}
use mathlib.Core.List.{map}
use latlearn.Registry.{overhead_span}
use latlearn.Client.{Env, World, run}
use latlearn.Client.Programs.{call_stop}
use latlearn.Client.Calm.{Calm}
use latlearn.Client.Outcome.{Ready, samples, Outcome, and_then-Outcome, of_run}
use latlearn.Client.Outcome.Calls.{quiet_calls-Outcome, assignments}
use latlearn.Client.Outcome.Loops.{repeated, init-Outcome, measure_self_sample-Outcome}
use latlearn.Client.Outcome.Ends.{of_run-Ends, stop-Ends}
use latlearn.Client.Pool.Tally.{count, count-append}
use latlearn.Apps.App5.{
  Context, value, worker_span, main_before, main_workers, main_deferred, over, run_workers,
}
use latlearn.Apps.App5.Process.{Process, Runs, runs_on, all_begun, worker_key}
use latlearn.Apps.App5.Rounds.{samples-rounds, Runs-Pays}
use latlearn.Apps.App5.Done.{Tidy, InHand}
use latlearn.Apps.App5.Rest.{IsPast, no_rounds_after_main}
use latlearn.Apps.App5.Answered.{Answered, Runs-Answered, run_workers-Answered}
use latlearn.Apps.App5.Finish.{can_end}
use latlearn.Apps.App5.Started.{
  KeyOf, known_rounds, Starts, Runs-Started, worker_keys, run_workers-Starts, run_workers-Tidy,
}

-- `main` with no worker yet.
abbrev pub main_process : World → Process
main_process w = record {
  world = w;
  next_id = 0;
  timers = [];
  ended = [];
  main = main_workers;
  workers = [];
}

-- A run of `main` and its workers, from the world `w`. The last call, `Stop`, is the end of the run.
pub record MainRun (e : Env) (w : World) : Type 0 where
  pub measured : Bool
  pub started : World
  pub left : Process
  pub world : World
  pub logged : Bool × Bool
  pub run_before : run e main_before w ≡ some (measured, started)
  pub runs_workers : Runs e (main_process started) left
  pub past : left.main ≡ over logged.0
  pub run_stop : run e call_stop left.world ≡ some (logged.1, world)

abbrev pub overhead_samples : List (Bytes × Bytes)
overhead_samples = repeated 1_000_000 ((overhead_span, []) ∷ [])

-- The spans of the ten workers of task 537 and of the five of task 296.
abbrev pub main_keys : List (Bytes × Bytes)
main_keys = worker_keys (pos 537) 10 0 ++ worker_keys (pos 296) 5 0

-- The context of a worker that `main` starts.
abbrev pub IsOfMain : Context → Type 0
IsOfMain ctx =
    ((j : ℕ) × (j < 10) × (value ctx ≡ worker_span (pos 537) j))
    ⊎ ((j : ℕ) × (j < 5) × (value ctx ≡ worker_span (pos 296) j))

pub main_workers-Starts : (key : Bytes × Bytes) → Starts key main_workers (count key main_keys)
main_workers-Starts key =
    let last =
      run_workers-Starts key (pos 296) (pos 5) (pos 40) (pos 20) main_deferred 0 (λ ok. refl) in
    let all =
      run_workers-Starts key (pos 537) (pos 10) (pos 20) (pos 40)
        (run_workers (pos 296) (pos 5) (pos 40) (pos 20) main_deferred) _ last in
    let sum : count key (worker_keys (pos 537) 10 0) + (count key (worker_keys (pos 296) 5 0) + 0)
        ≡ count key main_keys =
      omega (arith, count-append key (worker_keys (pos 537) 10 0) (worker_keys (pos 296) 5 0)) in
    subst (Starts key main_workers) sum all

main_workers-Tidy : Tidy IsOfMain main_workers
main_workers-Tidy =
    run_workers-Tidy IsOfMain (pos 537) (pos 10) (pos 20) (pos 40)
      (run_workers (pos 296) (pos 5) (pos 40) (pos 20) main_deferred)
      (run_workers-Tidy IsOfMain (pos 296) (pos 5) (pos 40) (pos 20) main_deferred (λ ok. tt)
        (λ j ctx few named. inr (j, few, named)))
      (λ j ctx few named. inl (j, few, named))

main_workers-Answered : Answered main_workers
main_workers-Answered =
    run_workers-Answered (pos 537) (pos 10) (pos 20) (pos 40)
      (run_workers (pos 296) (pos 5) (pos 40) (pos 20) main_deferred)
      (run_workers-Answered (pos 296) (pos 5) (pos 40) (pos 20) main_deferred refl)

pub main_process-InHand : (w : World) → InHand IsOfMain (main_process w)
main_process-InHand w = record { tidy = main_workers-Tidy; known = tt; covered = tt }

module _ (e : Env) where
  pub main_before-Outcome :
      (w : World) → Calm w.latlearn → Outcome e main_before w (λ ok. ok ≡ true) overhead_samples
  main_before-Outcome w calm = and_then-Outcome e (init-Outcome e [] w calm) λ _ w r _.
      quiet_calls-Outcome e (assignments (codes "latlearn-report-app5.txt") false true) w refl r
        λ w r. measure_self_sample-Outcome e (negsuc 0) w r

  -- The last report is answered with true.
  main_reported :
      (started : World) (q : Process) (ok : Bool)
      → Ready started.latlearn
      → Runs e (main_process started) q
      → q.main ≡ over ok
      → ok ≡ true
  main_reported started q ok ready r past =
      subst Answered past (Runs-Answered e (codes "", []) 0 r ready refl main_workers-Answered)

  -- `main` can run to its end, with all its workers ended.
  pub main_runs : (w : World) → Calm w.latlearn → (m : MainRun e w) × (m.left.workers ≡ [])
  main_runs w calm =
      let o = main_before-Outcome w calm in
      let (left, r, ready, none_left, ok, past) =
        can_end e {q = main_process o.world} Runs.here o.ready refl (main_process-InHand o.world) in
      let d = stop-Ends e left.world ready in
      (
        record {
          measured = o.answer;
          started = o.world;
          left = left;
          world = d.world;
          logged = (ok, d.answer);
          run_before = o.runs;
          runs_workers = r;
          past = past;
          run_stop = d.runs;
        },
        none_left,
      )

  -- Wherever `main`, its workers and the timers have got to, in whatever order, from a calm latlearn:
  -- `main` can get past its workers and the last report, which returns true, these can all end, and then
  -- `Stop` returns true.
  pub main_can_end :
      (w started : World) (measured : Bool) (q : Process)
      → Calm w.latlearn
      → run e main_before w ≡ some (measured, started)
      → Runs e (main_process started) q
      → (left : Process) × Runs e q left
        × (left.main ≡ over true)
        × (left.workers ≡ [])
        × (world : World) × (run e call_stop left.world ≡ some (true, world))
  main_can_end w started measured q calm before r =
      let (ready, ended, _) = of_run e (main_before-Outcome w calm) before in
      let (left, rest, ready', none_left, ok, past) =
        can_end e r ready refl (main_process-InHand started) in
      let said = main_reported started left ok ready (runs_on e r rest) past in
      let d = stop-Ends e left.world ready' in
      (left, rest, rw said at past, none_left, d.world, rw d.holds at d.runs)

  -- Once `main` is past its workers, no worker begins another round, in whatever order all run.
  pub main_past-no_rounds :
      (started : World) (q q' : Process) (r : Runs e (main_process started) q) (r' : Runs e q q')
      → IsPast q.main
      → all_begun r' ≡ []
  main_past-no_rounds started q q' r r' past =
      no_rounds_after_main r r' (main_process-InHand started) past

  -- In whatever order `main`, its workers and the timers run, and whatever the host, the clock and the
  -- turns of `serve`: a run of `main` from a calm latlearn ends, of each span and variant, no more samples
  -- than those of the overhead and one for each round that has begun, and no fewer but for one for each
  -- worker of that span that still runs when `main` calls `Stop`. Rounds begin only for the spans of the
  -- ten workers of task 537 and the five of task 296, for each of them at least one, and both the last
  -- report and `Stop` return true.
  pub main_run-rounds :
      (w : World) (m : MainRun e w) (key : Bytes × Bytes)
      → Calm w.latlearn
      → (m.logged ≡ (true, true))
        × All (KeyOf IsOfMain) (all_begun m.runs_workers)
        × (count key (samples m.world)
            ≤ count key (samples w)
              + count key overhead_samples
              + count key (all_begun m.runs_workers))
        × (count key (samples w) + count key overhead_samples + count key (all_begun m.runs_workers)
            ≤ count key (samples m.world) + count key (map worker_key m.left.workers))
        × (count key main_keys ≤ count key (all_begun m.runs_workers))
  main_run-rounds w m key calm =
      let (ready, before, _) = of_run e (main_before-Outcome w calm) m.run_before in
      let (most, least) =
        samples-rounds e key (main_process m.started) m.left m.runs_workers ready refl in
      let (i, j, sum, gained, later) = Runs-Pays e key 0 m.runs_workers ready refl in
      let (after, stopped) = of_run-Ends e (stop-Ends e m.left.world gained.ready) m.run_stop in
      let reported = main_reported m.started m.left m.logged.0 ready m.runs_workers m.past in
      let begun : count key (samples m.started)
          ≡ count key (samples w) + count key overhead_samples =
        ap (count key) before ∙ count-append key (samples w) overhead_samples in
      let last : count key (samples m.world) ≡ count key (samples m.left.world) =
        ap (count key) (after ∙ append-nil (samples m.left.world)) in
      let (rest, few, none_to_start) =
        Runs-Started key (count key main_keys) m.runs_workers (main_workers-Starts key) in
      let none : rest ≡ 0 = subst (λ o. Starts key o rest) m.past none_to_start in
      (
        ap (λ ok. (ok, m.logged.1)) reported ∙ ap (λ ok. (true, ok)) stopped,
        known_rounds IsOfMain m.runs_workers (main_process-InHand m.started),
        omega arith,
        omega arith,
        omega arith,
      )
