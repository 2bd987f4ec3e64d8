-- ===== src/Apps/App3.antt =====
-- example-app3.go: a thousand goroutines that are measured, half of which ask for a report as well.
pub mod Report
use latlearn.Common.{
  ℕ, zero, suc, ◌+◌, ◌%◌, ◌≡◌, refl, ap, ◌∙◌, negsuc, Bytes, Bool, true, false, eqb, if◌then◌else◌,
  some, List, [], ◌∷◌, ◌++◌, codes, append_assoc, append-nil, arith,
}
use latlearn.Registry.{overhead_span}
use latlearn.Client.{
  set_report_fpath, set_should_report_builtins, set_should_subtract_overhead, ask_report, Program,
  returns, call, ◌>>=◌, ◌>>◌, Env, World, run,
}
use latlearn.Client.Calm.{Calm}
use latlearn.Client.Programs.{
  call_init, call_b, call_a, call_report, call_stop, measure_self_sample,
}
use latlearn.Client.Outcome.{Ready, samples, Outcome, Any, and_then-Outcome, of_run}
use latlearn.Client.Outcome.Calls.{
  quiet_calls-Outcome, report-Outcome, assignments, measured-Outcome,
}
use latlearn.Client.Outcome.Loops.{repeated, init-Outcome, measure_self_sample-Outcome}
use latlearn.Client.Outcome.Ends.{
  of_run-Ends, Ends, and_then-Ends, stop-Ends, stopped-Ends, returns-Ends,
}
use latlearn.Client.Pool.{Interleaving}
use latlearn.Client.Pool.Tally.{Tally, only}
use latlearn.Client.Pool.Owed.{
  Owes, AllOwe, Interleaving-AllOwe, Interleaving-Gained, all_finish, quiet-Owes, span-Owes,
}

abbrev pub fn_name : Bytes
fn_name = codes "example-app3/fn"

-- `wg.Done` is that the program is finished.
abbrev pub fn : ℕ → Program (Unit {0})
fn id = do
  ll ← call_b fn_name
  call_a ll
  if eqb (id % 2) 0 then (call_report >> returns tt) else returns tt

-- The goroutines with the ids from `id`.
unfoldable pub goroutines : ℕ → ℕ → List (Program (Unit {0}))
goroutines zero id = []
goroutines (suc n) id = fn id ∷ goroutines n (id + 1)

-- `main` until it starts the goroutines.
abbrev pub main_before : Program (Unit {0})
main_before = do
  call_init
  call (set_report_fpath (codes "latlearn-report-conc.txt"))
  call (set_should_report_builtins true)
  call (set_should_subtract_overhead true)
  measure_self_sample (negsuc 0)
  ll ← call_b (codes "log-foo")
  call_a ll
  returns tt

-- `main` after `wg.Wait`, with the three results that it logs.
abbrev pub main_after : Program (Bool × Bool × Bool)
main_after = do ok ← call_report; ok2 ← call_report; ok3 ← call_stop; returns (ok, ok2, ok3)

-- A run of `main` and its goroutines, from the world `w`.
pub record MainRun (e : Env) (w : World) : Type 0 where
  pub started : World
  pub waited : World
  pub world : World
  pub logged : Bool × Bool × Bool
  pub run_before : run e main_before w ≡ some (tt, started)
  pub calls_fn : Interleaving e [] waited (goroutines 1_000 0) started
  pub run_after : run e main_after waited ≡ some (logged, world)

abbrev pub before_samples : List (Bytes × Bytes)
before_samples = repeated 1_000_000 ((overhead_span, []) ∷ []) ++ (codes "log-foo", []) ∷ []

abbrev pub fn_samples : List (Bytes × Bytes)
fn_samples = repeated 1_000 ((fn_name, []) ∷ [])

abbrev pub fn_tally : Tally
fn_tally = only (fn_name, [])

module _ (e : Env) where
  report_or_not :
      (b : Bool) → Owes e fn_tally (if b then (call_report >> returns tt) else returns tt) 0
  report_or_not true = quiet-Owes e fn_tally (ask_report []) (λ ok. returns tt) 0 refl (λ ok. refl)
  report_or_not false = refl

  fn-Owes : (id : ℕ) → Owes e fn_tally (fn id) 1
  fn-Owes id =
      span-Owes e fn_tally fn_name [] _ 1 0 (unfold repeated in refl)
        (report_or_not (eqb (id % 2) 0))

  pub goroutines_owe : (n id : ℕ) → AllOwe e fn_tally (goroutines n id) n
  unfolding goroutines
  goroutines_owe zero id = refl
  goroutines_owe (suc n) id = (1, n, omega arith, fn-Owes id, goroutines_owe n (id + 1))

  pub main_before-Outcome :
      (w : World) → Calm w.latlearn → Outcome e main_before w Any before_samples
  main_before-Outcome w calm = and_then-Outcome e (init-Outcome e [] w calm) λ _ w r _.
      quiet_calls-Outcome e (assignments (codes "latlearn-report-conc.txt") true true) w refl r
        λ w r.
          and_then-Outcome e (measure_self_sample-Outcome e (negsuc 0) w r)
            λ _ w r _. measured-Outcome e (codes "log-foo") [] w r

  main_after-Ends :
      (w : World)
      → Ready w.latlearn
      → Ends e main_after w (λ logged. logged ≡ (true, true, true)) []
  main_after-Ends w r = and_then-Ends e (report-Outcome e [] w r) λ ok w r p.
      and_then-Ends e (report-Outcome e [] w r) λ ok2 w r p2.
        stopped-Ends e (stop-Ends e w r) λ ok3 w p3.
          returns-Ends e (ok, ok2, ok3) w (λ logged. logged ≡ (true, true, true))
            (rw (p, p2, p3) refl)

  -- `main` can run to its end.
  pub main_runs : (w : World) → Calm w.latlearn → MainRun e w
  main_runs w calm =
      let o = main_before-Outcome w calm in
      let owe = goroutines_owe 1_000 0 in
      let (v, i) = all_finish e fn_tally (goroutines 1_000 0) o.world 1_000 o.ready owe in
      let g = Interleaving-Gained e fn_tally 1_000 i o.ready owe in
      let d = main_after-Ends v g.ready in
      record {
        started = o.world;
        waited = v;
        world = d.world;
        logged = d.answer;
        run_before = o.runs;
        calls_fn = i;
        run_after = d.runs;
      }

  main_before-Ready :
      (w started : World)
      → Calm w.latlearn
      → run e main_before w ≡ some (tt, started)
      → Ready started.latlearn
  main_before-Ready w started calm before = (of_run e (main_before-Outcome w calm) before).0

  -- However far the goroutines of `main` have got, in whatever order, from a calm latlearn: those that
  -- are not finished can all finish, so that `wg.Wait` returns, and then the rest of `main` returns.
  pub main_finishes :
      (w started v : World) (qs : List (Program (Unit {0})))
      → Calm w.latlearn
      → run e main_before w ≡ some (tt, started)
      → Interleaving e qs v (goroutines 1_000 0) started
      → (waited : World) × Interleaving e [] waited qs v
        × (logged : Bool × Bool × Bool) × (world : World) × (run e main_after waited
            ≡ some (logged, world))
  main_finishes w started v qs calm before so_far =
      let (i, j, sum, gained, owe) =
        Interleaving-AllOwe e fn_tally 1_000 so_far (main_before-Ready w started calm before)
          (goroutines_owe 1_000 0) in
      let (waited, rest) = all_finish e fn_tally qs v j gained.ready owe in
      let all_gained = Interleaving-Gained e fn_tally j rest gained.ready owe in
      let d = main_after-Ends waited all_gained.ready in (waited, rest, d.answer, d.world, d.runs)

  -- In whatever order the goroutines of `main` call latlearn, and whatever the host, the clock and the
  -- turns of `serve`, a run from a calm latlearn ends 1,000,000 samples of the overhead, one of log-foo
  -- and 1,000 of the goroutines, one each; both reports and `Stop` return true.
  pub main_run-samples :
      (w : World) (m : MainRun e w)
      → Calm w.latlearn
      → (m.logged ≡ (true, true, true))
        × (samples m.world ≡ samples w ++ (before_samples ++ fn_samples))
  main_run-samples w m calm =
      let (ready, before, _) = of_run e (main_before-Outcome w calm) m.run_before in
      let g = Interleaving-Gained e fn_tally 1_000 m.calls_fn ready (goroutines_owe 1_000 0) in
      let (after, holds) = of_run-Ends e (main_after-Ends m.waited g.ready) m.run_after in
      (
        holds,
        after
            ∙ append-nil (samples m.waited)
            ∙ g.ended
            ∙ ap (λ ks. samples m.started ++ ks) g.amount
            ∙ ap (λ ks. ks ++ fn_samples) before
            ∙ append_assoc (samples w) before_samples fn_samples,
      )
