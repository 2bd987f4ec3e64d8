-- ===== src/Apps/App5/Report.antt =====
-- The report of example-app5.go: what it says of each worker.
use latlearn.Common.{
  All-weaker, ℕ, ◌+◌, ◌≤◌, ◌≡◌, inl, inr, refl, ap, ◌∙◌, subst, ℤ, pos, Bool, Bytes, true, false,
  some, List, [], ◌∷◌, ◌++◌, ◌==◌, codes, mem, All, All-append, arith, length,
}
use mathlib.Core.List.{map}
use latlearn.Common.Int.{wrap64}
use latlearn.Learner.Samples.{some_sample}
use latlearn.Registry.{overhead_span}
use latlearn.Registry.Store.{stats}
use latlearn.Registry.Trace.{durations}
use latlearn.State.{Latlearn}
use latlearn.Report.Host.{has_prefix}
use latlearn.Report.Whole.Shown.{Shows, row_of}
use latlearn.Client.{ask_report, sleep, Env, World, run}
use latlearn.Client.Calm.{Calm}
use latlearn.Client.Programs.{call_report}
use latlearn.Client.Sends.{recorded}
use latlearn.Client.Runs.{Sent, Sent-none, Sent-joined, perform-Sent}
use latlearn.Client.Outcome.{key_of, samples, of_run}
use latlearn.Client.Outcome.Weights.{
  weight_for-count, length-durations, IsApartKey, recorded-IsApart, repeated-All,
}
use latlearn.Client.Pool.Tally.{same_key, count, count-append, count-nil, count-repeated, fewer-All}
use latlearn.Client.Reports.{sent-ReportOf}
use latlearn.Client.Started.{run_init-Opened, Opened-later}
use latlearn.Apps.App5.{value, Context, main_before, Worker, over}
use latlearn.Apps.App5.Process.{
  Process, Move, makes_call, goes_on, breaks, another, ProcessStep, main_makes_cancel,
  main_makes_timeout, main_starts, main_sleeps, main_reports, main_cancels, timer_fires,
  worker_moves, Runs, here, step_on, all_begun, worker_key,
}
use latlearn.Apps.App5.Started.{KeyOf, known_rounds, Runs-Started, Starts}
use latlearn.Apps.App5.Rounds.{samples-rounds, Runs-Pays}
use latlearn.Apps.App5.Spans.{
  span_names, names, main_keys-Listed, IsKnown, overhead-IsKnown, worker-IsKnown,
}
use latlearn.Apps.App5.Main.{
  main_process, main_process-InHand, main_keys, main_workers-Starts, IsOfMain, main_before-Outcome,
  overhead_samples,
}

Move-Sent :
    {e : Env} {ended : List ℕ} {w v : World} {ws vs : List Worker}
    → Move e ended w ws vs v
    → Sent e w v
Move-Sent {e} {w = w} (makes_call ctx c k a v ws q) = perform-Sent e c w a v q
Move-Sent {e} {w = w} (goes_on ctx ws q) = Sent-none e w
Move-Sent {e} {w = w} (breaks ctx ws q) = Sent-none e w
Move-Sent (another worker m) = Move-Sent m

ProcessStep-Sent : {e : Env} {p q : Process} → ProcessStep e p q → Sent e p.world q.world
ProcessStep-Sent {e} {p} (main_makes_cancel k q) = Sent-none e p.world
ProcessStep-Sent {e} {p} (main_makes_timeout timeout k q) = Sent-none e p.world
ProcessStep-Sent {e} {p} (main_starts ctx k q) = Sent-none e p.world
ProcessStep-Sent {e} {p} (main_sleeps duration k v q r) =
    perform-Sent e (sleep duration) p.world tt v r
ProcessStep-Sent {e} {p} (main_reports k ok v q r) = perform-Sent e (ask_report []) p.world ok v r
ProcessStep-Sent {e} {p} (main_cancels id k q) = Sent-none e p.world
ProcessStep-Sent {e} {p} (timer_fires id q) = Sent-none e p.world
ProcessStep-Sent (worker_moves m) = Move-Sent m

-- However it goes on, the process sends the samples that it ends.
pub Runs-Sent : {e : Env} {p q : Process} → Runs e p q → Sent e p.world q.world
Runs-Sent {e} {p} here = Sent-none e p.world
Runs-Sent {e} {p} (step_on {q} {r} rs s) =
    Sent-joined e p.world q.world r.world (Runs-Sent rs) (ProcessStep-Sent s)

of_main_not_own : (ctx : Context) → IsOfMain ctx → has_prefix (value ctx) (codes "LL.") ≡ false
unfolding has_prefix
of_main_not_own ctx (inl (j, few, named)) = rw named refl
of_main_not_own ctx (inr (j, few, named)) = rw named refl

of_main_not_overhead :
    (ctx : Context) → IsOfMain ctx → same_key (value ctx, []) (overhead_span, []) ≡ false
unfolding ◌==◌
of_main_not_overhead ctx (inl (j, few, named)) = rw named refl
of_main_not_overhead ctx (inr (j, few, named)) = rw named refl

some_of_length : (ds : List ℤ) → 1 ≤ length ds → some_sample ds ≡ true
some_of_length [] some_there = absurd (omega (arith, some_there))
some_of_length (d ∷ ds) some_there = refl

module _ (e : Env) (w started : World) (measured : Bool) (q : Process) (calm : Calm w.latlearn)
    (none_ended : w.ended ≡ []) (before : run e main_before w ≡ some (measured, started))
    (r : Runs e (main_process started) q) where
  started_samples : samples started ≡ overhead_samples
  started_samples =
      (of_run e (main_before-Outcome e w calm) before).1
      ∙ ap (λ xs. map key_of xs ++ overhead_samples) none_ended

  ended-IsKnown : All IsKnown (samples q.world)
  ended-IsKnown =
      let ready = (of_run e (main_before-Outcome e w calm) before).0 in
      fewer-All IsKnown (samples q.world) (overhead_samples ++ all_begun r)
        (λ key. omega (
          arith,
          (samples-rounds e key (main_process started) q r ready refl).0,
          ap (count key) started_samples,
          count-append key overhead_samples (all_begun r),
        ))
        (All-append IsKnown overhead_samples (all_begun r)
          (repeated-All IsKnown 1_000_000 (overhead_span, []) overhead-IsKnown)
          (All-weaker (KeyOf IsOfMain) IsKnown (all_begun r) worker-IsKnown
            (known_rounds IsOfMain r (main_process-InHand started))))

  -- Of a worker's span there is one sample for each round, those apart that are still under way.
  rounds_of_worker :
      (ctx : Context)
      → IsOfMain ctx
      → (count (value ctx, []) (samples q.world) ≤ count (value ctx, []) (all_begun r))
        × (count (value ctx, []) (all_begun r)
            ≤ count (value ctx, []) (samples q.world)
              + count (value ctx, []) (map worker_key q.workers))
  rounds_of_worker ctx of_main =
      let key : Bytes × Bytes = (value ctx, []) in
      let ready = (of_run e (main_before-Outcome e w calm) before).0 in
      let (most, least) = samples-rounds e key (main_process started) q r ready refl in
      let no_overhead : count key overhead_samples ≡ 0 =
        count-repeated key 1_000_000 (overhead_span, []) (of_main_not_overhead ctx of_main) in
      let same = ap (count key) started_samples in (omega arith, omega arith)

  samples_of_worker :
      (ctx : Context)
      → length (durations (value ctx) (recorded q.world.ended))
        ≡ count (value ctx, []) (samples q.world)
  samples_of_worker ctx =
      let plain : All (λ key. key.1 ≡ []) (samples q.world) =
        All-weaker IsKnown (λ key. key.1 ≡ []) (samples q.world) (λ key known. known.1)
          ended-IsKnown in
      length-durations (value ctx) q.world.ended
      ∙ weight_for-count (value ctx) (samples q.world) plain

  -- Once `main` is past its workers and they have all ended, there is a sample of each.
  pub worker_has_sample :
      (ctx : Context) (ok : Bool)
      → q.main ≡ over ok
      → q.workers ≡ []
      → IsOfMain ctx
      → 1 ≤ count (value ctx, []) (samples q.world)
  worker_has_sample ctx ok past none_left of_main =
      let key : Bytes × Bytes = (value ctx, []) in
      let (rest, few, none_to_start) =
        Runs-Started key (count key main_keys) r (main_workers-Starts key) in
      let none : rest ≡ 0 = subst (λ o. Starts key o rest) past none_to_start in
      let all_ended : count key (map worker_key q.workers) ≡ 0 =
        ap (λ ws. count key (map worker_key ws)) none_left ∙ count-nil key in
      let (most, least) = rounds_of_worker ctx of_main in
      omega (arith, (main_keys-Listed ctx of_main).1)

-- In whatever order `main`, its workers and the timers run, and whatever the clock and the turns of
-- `serve`: a report that is asked for at any moment after `main` has begun to run its workers, from a calm
-- latlearn at the start that was not initialised and on a host that can create any file, is answered with
-- true and writes a text with a row for the span of each worker that has a sample by then. The learner of
-- that row has for its weight, as an int64, the number of samples that have ended, which is that of the
-- rounds that workers of the span have begun, less at most one for each of its workers that still runs.
pub workers_report :
    (e : Env) (w started : World) (measured : Bool) (q : Process) (ctx : Context)
    (r : Runs e (main_process started) q)
    → ((path : Bytes) → e.host.creates path ≡ true)
    → Calm w.latlearn
    → w.latlearn.init_completed ≡ false
    → w.ended ≡ []
    → run e main_before w ≡ some (measured, started)
    → IsOfMain ctx
    → 1 ≤ count (value ctx, []) (samples q.world)
    → (v : World) × (from : Latlearn) × (text : Bytes) × (at : ℤ) × (run e call_report q.world
        ≡ some (true, v))
      × (v.latlearn.files ≡ (from.report_fpath, text) ∷ from.files)
      × Shows text (row_of e.host from at (value ctx))
      × ((stats from.registry (value ctx)).weight
          ≡ wrap64 (pos (count (value ctx, []) (samples q.world))))
      × (count (value ctx, []) (samples q.world) ≤ count (value ctx, []) (all_begun r))
      × (count (value ctx, []) (all_begun r)
          ≤ count (value ctx, []) (samples q.world)
            + count (value ctx, []) (map worker_key q.workers))
workers_report e w started measured q ctx r creates calm off none_ended before of_main some_ended =
    let key : Bytes × Bytes = (value ctx, []) in
    let ready = (of_run e (main_before-Outcome e w calm) before).0 in
    let n = samples_of_worker e w started measured q calm none_ended before r ctx in
    let (most, least) =
      rounds_of_worker e w started measured q calm none_ended before r ctx of_main in
    let (i, j, sum, gained, later) = Runs-Pays e key 0 r ready refl in
    let o =
      Opened-later e [] started q.world
        (run_init-Opened e [] _ w started measured calm off none_ended before) (Runs-Sent r) in
    let report =
      sent-ReportOf e [] creates o.first q.world (recorded q.world.ended) [] (span_names main_keys)
        (value ctx) o.inv o.completed o.fresh o.empty o.sends gained.ready.0
        (unfold mem in
          some_of_length (durations (value ctx) (recorded q.world.ended))
            (omega (arith, n, some_ended)))
        (of_main_not_own ctx of_main)
        (recorded-IsApart names q.world.ended (
          All-weaker IsKnown (IsApartKey names) (samples q.world) (λ key known. known.0)
            (ended-IsKnown e w started measured q calm none_ended before r))) in
    (
      report.world,
      report.from,
      report.text,
      report.at,
      report.runs,
      report.files,
      report.shows,
      report.summarises.weighed ∙ ap (λ k. wrap64 (pos k)) n,
      most,
      least,
    )
