-- ===== src/Examples/Apps.antt =====
-- Applications run on a concrete host.
use latlearn.Common.{
  ℤ, mem, ◌==◌, ◌++◌, ◌≡◌, pos, true, false, some, none, Option, List, Bytes, Bool, [], ◌∷◌, codes,
  refl,
}
use latlearn.Span.{after, before, ssu_before}
use latlearn.Api.{ssu_a, after_and_submit, send, init2, init_inner}
use latlearn.Server.{serve_start, serve_outer, handle_msg_a, handle_comm_msg}
use latlearn.System.{process_start, initialises}
use latlearn.Client.{
  now, call, perform, attempt, take_turns, turn, serve_next, with_room, Program, returns, ◌>>=◌,
  ◌>>◌, World, run,
}
use latlearn.Client.Programs.{call_init, call_b2, call_a, call_report, call_report2, world_start}
use latlearn.Client.Reports.{run_report-Shows}
use latlearn.Report.Whole.Shown.{Shows, row_of}
use latlearn.Report.Host.{has_prefix}
use latlearn.Client.Calm.{Calm}
use latlearn.State.{Latlearn}
use latlearn.Client.Statistics.{run-Summarises}
use latlearn.System.Invariant.{Inv, Step-Inv, process_start-Inv}
use latlearn.Learner.Samples.{Summarises}
use latlearn.Registry.{span_key_form, time_sub, spans_latlearn_builtin}
use latlearn.Registry.Store.{stats}
use latlearn.Registry.Trace.{durations}
use latlearn.Common.Int.{◌-ℤ◌}
use latlearn.Client.Total.{init2-Calm, NoStop, Finishes, run-Finishes}
use latlearn.Client.Outcome.{Outcome, Any, samples}
use latlearn.Client.Outcome.Ends.{Ends}
use latlearn.Client.Outcome.Loops.{process_start-Calm, init-Outcome}
use latlearn.Client.Pool.{Interleaving, over}
use latlearn.Apps.App1
use latlearn.Apps.App3
use latlearn.Apps.App3.Report.{goroutines_report}
use latlearn.Apps.App4
use latlearn.Apps.App4.Main
use latlearn.Examples.{linux, world, load, started}

abbrev measured : Program (Unit {0})
measured = do call_init; ll ← call_b2 load []; call_a ll; call_report; returns tt

measured-NoStop : NoStop measured
measured-NoStop = (refl, λ _. (refl, λ t. (refl, λ r. (refl, λ ok. tt))))

measured_run : Finishes (run world measured world_start)
measured_run = run-Finishes world measured world_start measured-NoStop process_start-Calm

run-Finishes_example : Finishes (run world measured world_start)
run-Finishes_example = run-Finishes world measured world_start measured-NoStop process_start-Calm

main-Ends_example :
    Ends world App4.Main.main world_start (λ stopped. stopped ≡ true) App4.Main.main_samples
main-Ends_example = App4.Main.main-Ends world world_start process_start-Calm

-- The goroutines as they start.
main_run : App3.MainRun world world_start
main_run = App3.main_runs world world_start process_start-Calm

main_run-samples_example :
    (main_run.logged ≡ (true, true, true))
    × (samples main_run.world ≡ samples world_start ++ (App3.before_samples ++ App3.fn_samples))
main_run-samples_example = App3.main_run-samples world world_start main_run process_start-Calm

main_finishes_example :
    (waited : World) × Interleaving world [] waited (App3.goroutines 1_000 0) main_run.started
    × (logged : Bool × Bool × Bool) × (end : World) × (run world App3.main_after waited
        ≡ some (logged, end))
main_finishes_example =
    App3.main_finishes world world_start main_run.started main_run.started (App3.goroutines 1_000 0)
      process_start-Calm main_run.run_before over

main-Outcome_example : Outcome world App1.main world_start Any App1.main_samples
main-Outcome_example = App1.main-Outcome world world_start process_start-Calm

-- latlearn initialised.
initialised : Outcome world call_init world_start Any []
initialised = init-Outcome world [] world_start process_start-Calm

fn-Outcome_example :
    Outcome world
      (App4.fn (pos 3) (pos 9))
      initialised.world
      (λ p. p ≡ false)
      ((App4.fn_name, codes "earlyreturn") ∷ [])
fn-Outcome_example = App4.fn-Outcome world (pos 3) (pos 9) initialised.world initialised.ready

abbrev ended_keys : Option (Unit {0} × World) → List (Bytes × Bytes)
ended_keys none = []
ended_keys (some r) = samples r.1

-- A sample that is ended twice, and that `serve` handles before the last call.
abbrev short : Program (Unit {0})
short = do call_init; ll ← call_b2 load []; r ← call_a ll; call_a r.0; call now; returns tt

short_ended : ended_keys (run world short world_start) ≡ (load, []) ∷ []
unfolding run perform attempt take_turns turn serve_next serve_start serve_outer with_room ssu_a
    after_and_submit send after ssu_before before init2 init_inner handle_comm_msg ◌==◌ handle_msg_a
short_ended = refl

-- The same without `Init`, from the state after `Init2`.
abbrev initialised_world : World
initialised_world = record { latlearn = started; tick = 0; ended = [] }

abbrev twice : Program (Unit {0})
twice = do ll ← call_b2 load []; r ← call_a ll; call_a r.0; call now; returns tt

abbrev result_world : Option (Unit {0} × World) → World
result_world none = initialised_world
result_world (some r) = r.1

abbrev twice_world : World
twice_world = result_world (run world twice initialised_world)

started-Inv : Inv started
unfolding init2 init_inner
started-Inv = Step-Inv linux (initialises (load ∷ []) (pos 0)) process_start-Inv

run-Summarises_example : Summarises (stats twice_world.latlearn.registry load) load (pos 1 ∷ [])
unfolding run perform attempt take_turns turn serve_next serve_start serve_outer with_room ssu_a
    after_and_submit send after ssu_before before init2 init_inner handle_comm_msg ◌==◌ handle_msg_a
    durations time_sub ◌-ℤ◌ span_key_form mem spans_latlearn_builtin
run-Summarises_example =
    run-Summarises world twice initialised_world twice_world tt (load ∷ []) [] load started-Inv refl
      refl refl refl refl refl refl ((refl, refl), tt)

twice-NoStop : NoStop twice
twice-NoStop = (refl, λ t. (refl, λ r. (refl, λ r. (refl, λ t. tt))))

started-Calm : Calm started
started-Calm = init2-Calm linux process_start (load ∷ []) (pos 0) process_start-Calm

run_report-Shows_example :
    (w : World) × (from : Latlearn) × (text : Bytes) × (at : ℤ) × (run world
        (twice >>= λ _. call_report2 (codes "two" ∷ []))
        initialised_world
      ≡ some (true, w))
    × (w.latlearn.comm_outer ≡ [])
    × (w.latlearn.files ≡ (from.report_fpath, text) ∷ from.files)
    × Shows text (row_of linux from at load)
    × Summarises (stats from.registry load) load (pos 1 ∷ [])
unfolding run perform attempt take_turns turn serve_next serve_start serve_outer with_room ssu_a
    after_and_submit send after ssu_before before init2 init_inner handle_comm_msg ◌==◌ handle_msg_a
    durations time_sub ◌-ℤ◌ span_key_form mem spans_latlearn_builtin has_prefix
run_report-Shows_example =
    run_report-Shows world (codes "two" ∷ []) (λ path. refl) twice initialised_world twice_world tt
      (load ∷ []) [] load twice-NoStop started-Calm refl refl refl refl refl refl refl
      ((refl, refl), tt)

goroutines_report_example :
    (v : World) × (from : Latlearn) × (text : Bytes) × (at : ℤ) × (run world call_report
        main_run.waited
      ≡ some (true, v))
    × (v.latlearn.files ≡ (from.report_fpath, text) ∷ from.files)
    × Shows text (row_of linux from at App3.fn_name)
    × ((stats from.registry App3.fn_name).weight ≡ pos 1_000)
goroutines_report_example =
    goroutines_report world world_start main_run.started main_run.waited (λ path. refl)
      process_start-Calm refl refl main_run.run_before main_run.calls_fn
