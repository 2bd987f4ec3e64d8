-- ===== src/Apps/App3/Report.antt =====
-- The report of example-app3.go: what it says of the goroutines.
use latlearn.Common.{
  ℕ, ◌≡◌, refl, sym, ap, ◌∙◌, subst, ℤ, pos, Bytes, true, false, some, List, [], ◌∷◌, ◌++◌, ◌==◌,
  codes, mem, All, All-append, arith, length,
}
use mathlib.Core.List.{map}
use latlearn.Common.Int.{wrap64}
use latlearn.Learner.Samples.{some_sample}
use latlearn.Registry.{overhead_span, span_key_form, spans_latlearn_builtin}
use latlearn.Registry.Store.{stats}
use latlearn.Registry.Trace.{durations}
use latlearn.State.{Latlearn}
use latlearn.Report.Host.{has_prefix}
use latlearn.Report.Whole.Shown.{Shows, row_of}
use latlearn.Client.{Env, World, run}
use latlearn.Client.Calm.{Calm}
use latlearn.Client.Programs.{call_report}
use latlearn.Client.Sends.{recorded}
use latlearn.Client.Outcome.{key_of, samples, of_run}
use latlearn.Client.Outcome.Loops.{repeated}
use latlearn.Client.Outcome.Weights.{
  weight_for, weight_for-append, weight_for-repeated, length-durations, IsApartKey,
  recorded-IsApart, repeated-All,
}
use latlearn.Client.Pool.{Interleaving, Interleaving-Sent}
use latlearn.Client.Pool.Owed.{Interleaving-Gained}
use latlearn.Client.Reports.{sent-ReportOf}
use latlearn.Client.Started.{run_init-Opened, Opened-later}
use latlearn.Apps.App3.{
  fn_name, fn_tally, fn_samples, before_samples, main_before, main_before-Outcome, goroutines,
  goroutines_owe,
}

-- The spans that `main` and its goroutines measure.
abbrev names : List Bytes
names = ([] ++ spans_latlearn_builtin) ++ codes "log-foo" ∷ fn_name ∷ []

overhead-IsApart : IsApartKey names (overhead_span, [])
unfolding mem ◌==◌ span_key_form spans_latlearn_builtin
overhead-IsApart = (refl, refl)

log_foo-IsApart : IsApartKey names (codes "log-foo", [])
unfolding mem ◌==◌ span_key_form spans_latlearn_builtin
log_foo-IsApart = (refl, refl)

fn_name-IsApart : IsApartKey names (fn_name, [])
unfolding mem ◌==◌ span_key_form spans_latlearn_builtin
fn_name-IsApart = (refl, refl)

samples-IsApart : All (IsApartKey names) (before_samples ++ fn_samples)
samples-IsApart =
    All-append (IsApartKey names) before_samples fn_samples
      (All-append (IsApartKey names) (repeated 1_000_000 ((overhead_span, []) ∷ []))
        ((codes "log-foo", []) ∷ [])
        (repeated-All (IsApartKey names) 1_000_000 (overhead_span, []) overhead-IsApart)
        (log_foo-IsApart, tt))
      (repeated-All (IsApartKey names) 1_000 (fn_name, []) fn_name-IsApart)

fn_weight : weight_for fn_name (before_samples ++ fn_samples) ≡ 1_000
unfolding ◌==◌ span_key_form weight_for
fn_weight =
    let overheads = repeated 1_000_000 ((overhead_span, []) ∷ []) in
    let log_foo = (codes "log-foo", []) ∷ [] in
    let a = weight_for-append fn_name before_samples fn_samples in
    let b = weight_for-append fn_name overheads log_foo in
    let c : weight_for fn_name overheads ≡ 0 =
      weight_for-repeated fn_name 1_000_000 (overhead_span, []) in
    let d : weight_for fn_name fn_samples ≡ 1_000 =
      weight_for-repeated fn_name 1_000 (fn_name, []) in
    let f : weight_for fn_name log_foo ≡ 0 = refl in omega (arith, a, b, c, d, f)

fn_not_own : has_prefix fn_name (codes "LL.") ≡ false
unfolding has_prefix
fn_not_own = refl

some_of_length : (ds : List ℤ) → length ds ≡ 1_000 → some_sample ds ≡ true
some_of_length [] q = ground arith
some_of_length (d ∷ ds) q = refl

weight_in_range : (n : ℕ) → n ≡ 1_000 → wrap64 (pos n) ≡ pos 1_000
unfolding wrap64
weight_in_range n q = rw q refl

-- In whatever order the goroutines of `main` call latlearn, half of them asking for reports of their
-- own, and whatever the clock and the turns of `serve`: the first report that `main` asks for after
-- `wg.Wait`, from a calm latlearn at the start that was not initialised and on a host that can create
-- any file, is answered with true and writes a text with a row for the goroutines' span. The learner of
-- that row has the weight 1,000: not one of the goroutines' samples is lost or counted twice.
pub goroutines_report :
    (e : Env) (w started waited : World)
    → ((path : Bytes) → e.host.creates path ≡ true)
    → Calm w.latlearn
    → w.latlearn.init_completed ≡ false
    → w.ended ≡ []
    → run e main_before w ≡ some (tt, started)
    → Interleaving e [] waited (goroutines 1_000 0) started
    → (v : World) × (from : Latlearn) × (text : Bytes) × (at : ℤ) × (run e call_report waited
        ≡ some (true, v))
      × (v.latlearn.files ≡ (from.report_fpath, text) ∷ from.files)
      × Shows text (row_of e.host from at fn_name)
      × ((stats from.registry fn_name).weight ≡ pos 1_000)
goroutines_report e w started waited creates calm off none_ended before waits =
    let (ready, first, _) = of_run e (main_before-Outcome e w calm) before in
    let g = Interleaving-Gained e fn_tally 1_000 waits ready (goroutines_owe e 1_000 0) in
    let keys : samples waited ≡ before_samples ++ fn_samples =
      g.ended
      ∙ ap (λ ks. samples started ++ ks) g.amount
      ∙ ap (λ ks. ks ++ fn_samples) first
      ∙ ap (λ xs. (map key_of xs ++ before_samples) ++ fn_samples) none_ended in
    let o =
      Opened-later e [] started waited
        (run_init-Opened e [] _ w started tt calm off none_ended before)
        (Interleaving-Sent e waits) in
    let n : length (durations fn_name (recorded waited.ended)) ≡ 1_000 =
      length-durations fn_name waited.ended ∙ ap (weight_for fn_name) keys ∙ fn_weight in
    let r =
      sent-ReportOf e [] creates o.first waited (recorded waited.ended) []
        (codes "log-foo" ∷ fn_name ∷ []) fn_name o.inv o.completed o.fresh o.empty o.sends g.ready.0
        (unfold mem in some_of_length (durations fn_name (recorded waited.ended)) n) fn_not_own
        (recorded-IsApart names waited.ended
          (subst (All (IsApartKey names)) (sym keys) samples-IsApart)) in
    (
      r.world,
      r.from,
      r.text,
      r.at,
      r.runs,
      r.files,
      r.shows,
      r.summarises.weighed ∙ weight_in_range _ n,
    )
