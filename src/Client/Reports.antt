-- ===== src/Client/Reports.antt =====
-- What a report shows: the samples that the program has ended when it asks for it.
use latlearn.Common.{
  ℕ, ◌≡◌, refl, sym, ap, ◌∙◌, subst, ℤ, Bytes, true, false, some, List, [], ◌∷◌, ◌++◌, ◌==◌, codes,
  arith, mem, ◌||◌, All, Bool-cases, inl, inr,
}
use latlearn.Learner.Samples.{Summarises, some_sample}
use latlearn.Registry.{Sample, init_registry, spans_latlearn_builtin}
use latlearn.Registry.Store.{IsValid, stats}
use latlearn.Registry.Trace.{durations, IsApart}
use latlearn.State.{Latlearn}
use latlearn.Span.{SpanSampleUnderway, ssu_before, after_and_update}
use latlearn.Report.Host.{Host, has_prefix}
use latlearn.Report.Whole.Shown.{Shows, row_of, report_text-Shows}
use latlearn.Report.Whole.Seen.{prefix_not_builtin, not_skipped, tracked_if_sampled}
use latlearn.Report.Whole.{report_text}
use latlearn.Report.Whole.Total.{report_inner_total}
use latlearn.Server.{
  serve_start, serve_outer, finish, handle_comm_msg, handle_msg_report, send_done,
}
use latlearn.Server.Own.{sample_of}
use latlearn.System.Completed.{Reach-completed}
use latlearn.System.Statistics.{samples_of, Reach-tracks}
use latlearn.System.Invariant.{Inv}
use latlearn.Client.{Program, ◌>>=◌, Env, World, ask_report, run}
use latlearn.Client.Programs.{call_report2, run->>=}
use latlearn.Client.Total.{NoStop, performed, run-Finishes}
use latlearn.Client.Outcome.{run-call}
use latlearn.Client.Turns.{take_turns-Sends}
use latlearn.Client.Statistics.{Sends-Summarises}
use latlearn.Client.Sends.{recorded, Sends, Sends-joined, Sends-later}
use latlearn.Client.Runs.{run-Sent}
use latlearn.Client.Calm.{Calm, turn_next}
use latlearn.Client.Waits.{take_turns-Calm}
use latlearn.Client.Asks.{report_msg_to}
use latlearn.Client.Drained.{LastTurn, report-LastTurn}

files-after_and_update :
    (l : Latlearn) (ssu : SpanSampleUnderway) (now : ℤ)
    → (after_and_update l ssu now).0.files ≡ l.files
unfolding after_and_update
files-after_and_update l ssu now = ground arith

-- A file that `m` has and `l` has not: a report made from the state `from`.
pub record Written (h : Host) (params : List Bytes) (from m : Latlearn) : Type 0 where
  pub text : Bytes
  pub at : ℤ
  pub is_text : report_text h from params at ≡ some text
  pub files : m.files ≡ (from.report_fpath, text) ∷ from.files

handled_report :
    (h : Host) (clock : ℕ → ℤ) (l m : Latlearn) (params : List Bytes) (chan : ℕ)
    → IsValid l.registry
    → l.init_completed ≡ true
    → h.creates l.report_fpath ≡ true
    → finish (handle_comm_msg h clock l (report_msg_to params chan)) ≡ some m
    → Written h params l m
unfolding handle_comm_msg handle_msg_report send_done ◌==◌
handled_report h clock l m params chan v on creates q =
    let (text, e, r) = report_inner_total h clock l params v on creates in
    let written = record l { files = (l.report_fpath, text) ∷ l.files } in
    let ssu = ssu_before (codes "LL.lat-report") [] (clock 0) in
    let k = (after_and_update written ssu (clock 2)).0 in
    let same : record k { done_chans = chan ∷ k.done_chans } ≡ m = ground arith in
    record {
      text = text;
      at = clock 1;
      is_text = e;
      files =
          ap (λ (x : Latlearn). x.files) (sym same) ∙ files-after_and_update written ssu (clock 2);
    }

report_samples : (params : List Bytes) (chan : ℕ) → sample_of (report_msg_to params chan) ≡ []
unfolding sample_of ◌==◌
report_samples params chan = refl

run-Calm :
    {A : Type 0} (e : Env) (p : Program A) (w v : World) (a : A)
    → NoStop p
    → Calm w.latlearn
    → run e p w ≡ some (a, v)
    → Calm v.latlearn
run-Calm {A} e p w v a n calm q =
    let (b, u, r, c) = run-Finishes e p w n calm in
    let same : some (b, u) ≡ some (a, v) = sym r ∙ q in
    let pair : (b, u) ≡ (a, v) = ground arith in subst (λ (x : A × World). Calm x.1.latlearn) pair c

module _ (e : Env) (params : List Bytes)
    (creates : (path : Bytes) → e.host.creates path ≡ true) where
  LastTurn-Written :
      (tick chan : ℕ) (l m : Latlearn) (last : LastTurn e tick l (report_msg_to params chan) m)
      → Written e.host params (record (serve_start last.asked) { comm_outer = [] }) m
  LastTurn-Written tick chan l m last =
      let clock = e.serve_clock tick last.turn_number in
      let from = record (serve_start last.asked) { comm_outer = [] } in
      handled_report e.host clock from m params chan (unfold serve_start in last.calm.inv.valid)
        (unfold serve_start in last.completed) (creates from.report_fpath)
        (unfold serve_outer in
          (sym (
              turn_next e.host clock last.asked last.calm (report_msg_to params chan) []
                last.completed last.queue)
            ∙ last.turns))

  -- What a program gets that asks for a report in a world where samples of the durations `ds` have been
  -- ended for the span `k`.
  pub record ReportOf (v : World) (k : Bytes) (ds : List ℤ) : Type 0 where
    pub world : World
    pub from : Latlearn
    pub text : Bytes
    pub at : ℤ
    pub runs : run e (call_report2 params) v ≡ some (true, world)
    pub emptied : world.latlearn.comm_outer ≡ []
    pub files : world.latlearn.files ≡ (from.report_fpath, text) ∷ from.files
    pub shows : Shows text (row_of e.host from at k)
    pub summarises : Summarises (stats from.registry k) k ds

  -- After a part of the process in which the samples `xs` were sent.
  pub sent-ReportOf :
      (l : Latlearn) (v : World) (xs : List Sample) (spans_app more : List Bytes) (k : Bytes)
      → Inv l
      → l.init_completed ≡ true
      → l.registry ≡ init_registry spans_app
      → l.comm_outer ≡ []
      → Sends e.host l v.latlearn xs
      → Calm v.latlearn
      → (mem k spans_app || some_sample (durations k xs)) ≡ true
      → has_prefix k (codes "LL.") ≡ false
      → All (IsApart ((spans_app ++ spans_latlearn_builtin) ++ more)) xs
      → ReportOf v k (durations k xs)
  sent-ReportOf l0 v xs spans_app more k inv on fresh empty sent calm known own apart =
      let (l, r, calm_l) = take_turns-Calm e v.tick (e.turns v.tick) v.latlearn calm in
      let turns = take_turns-Sends e v.tick (e.turns v.tick) v.latlearn l r in
      let on_l = Reach-completed e.host turns.reach (Reach-completed e.host sent.reach on) in
      let (m, chan, s, last) = report-LastTurn e v.tick params l calm_l on_l in
      let from = record (serve_start last.asked) { comm_outer = [] } in
      let sends : Sends e.host l0 last.asked xs =
        Sends-joined e.host sent (Sends-later e.host turns last.sends) in
      let summed =
        Sends-Summarises e.host xs sends spans_app more k inv on fresh empty
          (ap samples_of last.queue ∙ report_samples params chan) (prefix_not_builtin k own)
          apart in
      let tracked : mem k last.asked.registry.tracked_spans ≡ true =
        elim (Bool-cases (mem k spans_app)) [
          | inl expected ↦
              Reach-tracks e.host spans_app sends.reach k (inv.once ∙ on) on fresh expected
          | inr other ↦
              tracked_if_sampled last.asked.registry k (durations k xs) last.calm.inv.valid summed
                (ground arith)
        ] in
      let written = LastTurn-Written v.tick chan l m last in
      record {
        world = _;
        from = from;
        text = written.text;
        at = written.at;
        runs =
            run-call e (ask_report params) v _ true
              (performed e (ask_report params) v l m true r s);
        emptied = last.taken.queue;
        files = written.files;
        shows =
            report_text-Shows e.host from params written.at written.text k
              (unfold serve_start in last.calm.inv.valid) written.is_text
              (unfold serve_start in tracked) (not_skipped from k own);
        summarises = unfold serve_start in summed;
      }

  -- A program that sends no stop and then asks for a report, run from a calm and initialised latlearn
  -- with no sample yet, none in the registry, sent or ended, on a host that can create any file: the
  -- report is answered with true and leaves the queue empty, and a text has been written that has a row
  -- for each span or variant that the application expects or has a sample of, and whose name does not
  -- begin with `LL.`. The row is that of a learner which summarises exactly the samples that the program
  -- ended for it, where its samples are for expected spans or those of the list `more`, and no
  -- variant's key is the name of such a span.
  pub run_report-Shows :
      {A : Type 0} (p : Program A) (w v : World) (a : A) (spans_app more : List Bytes) (k : Bytes)
      → NoStop p
      → Calm w.latlearn
      → w.latlearn.init_completed ≡ true
      → w.latlearn.registry ≡ init_registry spans_app
      → w.latlearn.comm_outer ≡ []
      → w.ended ≡ []
      → run e p w ≡ some (a, v)
      → (mem k spans_app || some_sample (durations k (recorded v.ended))) ≡ true
      → has_prefix k (codes "LL.") ≡ false
      → All (IsApart ((spans_app ++ spans_latlearn_builtin) ++ more)) (recorded v.ended)
      → (w' : World) × (from : Latlearn) × (text : Bytes) × (at : ℤ) × (run e
            (p >>= λ _. call_report2 params)
            w
          ≡ some (true, w'))
        × (w'.latlearn.comm_outer ≡ [])
        × (w'.latlearn.files ≡ (from.report_fpath, text) ∷ from.files)
        × Shows text (row_of e.host from at k)
        × Summarises (stats from.registry k) k (durations k (recorded v.ended))
  run_report-Shows p w v a spans_app more k n calm on fresh empty none_ended q known own apart =
      let sent = run-Sent e p w a v q in
      let new : sent.new ≡ v.ended = sym (sent.ended ∙ ap (λ xs. xs ++ sent.new) none_ended) in
      let sends : Sends e.host w.latlearn v.latlearn (recorded v.ended) =
        subst (λ xs. Sends e.host w.latlearn v.latlearn (recorded xs)) new sent.sends in
      let o =
        sent-ReportOf w.latlearn v (recorded v.ended) spans_app more k calm.inv on fresh empty sends
          (run-Calm e p w v a n calm q) known own apart in
      (
        o.world,
        o.from,
        o.text,
        o.at,
        run->>= e p (λ _. call_report2 params) w v a q ∙ o.runs,
        o.emptied,
        o.files,
        o.shows,
        o.summarises,
      )
