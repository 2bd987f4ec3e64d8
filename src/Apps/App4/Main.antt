-- ===== src/Apps/App4/Main.antt =====
-- `main` of example-app4.go, with its two deferred functions, which a panic does not prevent.
use latlearn.Common.{
  ◌≡◌, refl, negsuc, Bytes, Bool, true, false, if◌then◌else◌, List, [], ◌∷◌, ◌++◌, codes,
}
use latlearn.Registry.{overhead_span}
use latlearn.Client.{
  set_report_fpath, set_should_report_builtins, set_should_subtract_overhead, ask_report, Program,
  returns, call, ◌>>=◌, ◌>>◌, Env, World,
}
use latlearn.Client.Calm.{Calm}
use latlearn.Client.Programs.{call_init, call_report, call_stop, measure_self_sample}
use latlearn.Client.Outcome.{Ready, Outcome, Any, and_then-Outcome, returns-Outcome}
use latlearn.Client.Outcome.Calls.{past-Outcome, quiet_calls-Outcome, assignments}
use latlearn.Client.Outcome.Loops.{samples_in, repeated, init-Outcome, measure_self_sample-Outcome}
use latlearn.Client.Outcome.Ends.{Ends, and_then-Ends, and_quietly-Ends, stop-Ends}
use latlearn.Apps.App4.Loops.{
  span_name, big_loop, call_fns, fn_sample, big_loop-Outcome, call_fns-Outcome,
}

abbrev pub panic_handler_for_main : Bool → Program (Unit {0})
panic_handler_for_main panicked = if panicked then (call_report >> returns tt) else returns tt

-- Until it returns or panics.
abbrev pub main_body : Program Bool
main_body = do
  call_init
  call (set_report_fpath (codes "latlearn-report-app4.txt"))
  call (set_should_report_builtins false)
  call (set_should_subtract_overhead true)
  measure_self_sample (negsuc 0)
  big_loop
  call_fns 10 0 9

-- The result is that of `Stop`, which `main` logs.
abbrev pub main : Program Bool
main = do panicked ← main_body; panic_handler_for_main panicked; call_stop

abbrev pub main_samples : List (Bytes × Bytes)
main_samples =
    repeated 1_000_000 ((overhead_span, []) ∷ [])
    ++ (repeated 10 ((span_name, codes "i<10") ∷ [])
        ++ repeated 90 ((span_name, codes "i<100") ∷ [])
        ++ samples_in 10 0 (fn_sample 9))

module _ (e : Env) where
  main_body-Outcome :
      (w : World) → Calm w.latlearn → Outcome e main_body w (λ p. p ≡ true) main_samples
  main_body-Outcome w calm = and_then-Outcome e (init-Outcome e [] w calm) λ _ w r _.
      quiet_calls-Outcome e (assignments (codes "latlearn-report-app4.txt") false true) w refl r
        λ w r. and_then-Outcome e (measure_self_sample-Outcome e (negsuc 0) w r) λ _ w r _.
          and_then-Outcome e (big_loop-Outcome e w r) λ _ w r _. call_fns-Outcome e 9 0 9 w refl r

  handler-Outcome :
      (panicked : Bool) (w : World)
      → Ready w.latlearn
      → Outcome e (panic_handler_for_main panicked) w Any []
  handler-Outcome true w r =
      past-Outcome e (ask_report []) w refl r λ _ w r. returns-Outcome e tt w Any r tt
  handler-Outcome false w r = returns-Outcome e tt w Any r tt

  -- Whatever the host, the clock and the turns of `serve`, `main` runs to its end from a calm latlearn
  -- in spite of the panic, and `Stop` returns true. The samples that it ends are 1,000,000 of the
  -- overhead, a hundred of the big loop by their variants, and one for each of the ten calls of `fn`.
  pub main-Ends :
      (w : World) → Calm w.latlearn → Ends e main w (λ stopped. stopped ≡ true) main_samples
  main-Ends w calm =
      and_quietly-Ends e (main_body-Outcome w calm)
        λ panicked w r p. and_then-Ends e (handler-Outcome panicked w r) λ _ w r _. stop-Ends e w r
