-- ===== src/Client/Total.antt =====
-- A program that sends no stop runs to its end.
use latlearn.Common.{
  ℕ, suc, ◌%◌, ◌≡◌, refl, sym, ◌∙◌, subst, inl, inr, ℤ, Bytes, Bool, true, false, Option, none,
  some, List, ◌++◌, ◌==◌, arith, Bool-cases, All,
}
use latlearn.State.{Latlearn}
use latlearn.Span.{SpanSampleUnderway}
use latlearn.Report.Host.{Host}
use latlearn.Api.{init2, report2, benchmarks, call_values}
use latlearn.Api.Queued.{ssu_a-Queued, ssu_a2-Queued}
use latlearn.Api.Sent.{ended_msgs, ssu_a-Sent, ssu_a2-Sent}
use latlearn.Api.Ending.{end_sample}
use latlearn.Api.Fits.{end_sample-Returns}
use latlearn.System.{Step, initialises, configures, begins_self_sample, ends_self_sample}
use latlearn.System.Invariant.{Inv, Step-Inv, init2_first, init2_again}
use latlearn.System.Progress.{is_stop}
use latlearn.Client.{
  Call, now, init_spans, set_report_fpath, set_should_report_builtins, set_should_subtract_overhead,
  end_span, ask_report, ask_benchmarks, ask_values, ask_stop, is_init_completed, begin_self_sample,
  end_self_sample, rand_intn, sleep, Answer, Program, returns, calls, Env, World, ended_by,
  take_turns, with_room, attempt, perform, run,
}
use latlearn.Client.Calm.{Calm, called-Calm}
use latlearn.Client.Waits.{Stays, take_turns-Calm, with_room_returns}
use latlearn.Client.Asks.{Replies, report-Replies, benchmarks-Replies, values-Replies}

samples_no_stop :
    (ssu : SpanSampleUnderway) (ok : Bool) → All (λ m. is_stop m ≡ false) (ended_msgs ssu ok)
unfolding ◌==◌
samples_no_stop ssu true = (refl, tt)
samples_no_stop ssu false = tt

pub end_sample-Calm :
    (how : Option Bytes) (ssu : SpanSampleUnderway) (t : ℤ) (l : Latlearn)
    (r : Latlearn × SpanSampleUnderway × Bool)
    → end_sample how l ssu t ≡ some r
    → Calm l
    → Calm r.0
end_sample-Calm none ssu t l (m, ssu', ok) q c =
    called-Calm l m (ended_msgs ssu' ok) (ssu_a-Queued l ssu t m ssu' ok q)
      (ssu_a-Sent l ssu t m ssu' ok q) (samples_no_stop ssu' ok) c
end_sample-Calm (some v) ssu t l (m, ssu', ok) q c =
    called-Calm l m (ended_msgs ssu' ok) (ssu_a2-Queued l ssu v t m ssu' ok q)
      (ssu_a2-Sent l ssu v t m ssu' ok q) (samples_no_stop ssu' ok) c

-- A step that leaves the queue, the capacity and `serve` alone.
Step-Calm :
    (h : Host) (l m : Latlearn)
    → Step h l m
    → m.comm_outer ≡ l.comm_outer
    → m.cap_outer ≡ l.cap_outer
    → m.init_completed ≡ l.init_completed
    → m.serve_finished ≡ l.serve_finished
    → Calm l
    → Calm m
Step-Calm h l m s q cap on fin c = record {
  inv = Step-Inv h s c.inv;
  unfinished = fin ∙ c.unfinished;
  no_stop = subst (All (λ msg. is_stop msg ≡ false)) (sym q) c.no_stop;
  roomy = rw (cap, on) c.roomy;
}

pub init2-Calm :
    (h : Host) (l : Latlearn) (spans : List Bytes) (t : ℤ) → Calm l → Calm (init2 l spans t)
init2-Calm h l spans t c = elim (Bool-cases l.init_once) [
  | inl used ↦ rw (init2_again l spans t used) c
  | inr fresh ↦
      let e = init2_first l spans t fresh (sym c.inv.once ∙ fresh) in
      let inv = Step-Inv h (initialises spans t) c.inv in
      subst Calm (sym e) (record {
        inv = subst Inv e inv;
        unfinished = c.unfinished;
        no_stop = tt;
        roomy = inr (ground arith);
      })
]

abbrev pub is_stop_call : Call → Bool
is_stop_call ask_stop = true
is_stop_call _ = false

-- No stop is asked for.
abbrev pub NoStop : {A : Type 0} → Program A → Type 0
NoStop (returns a) = Unit {0}
NoStop (calls c k) = (is_stop_call c ≡ false) × ((a : Answer c) → NoStop (k a))

pub ended_of :
    (e : Env) (tick : ℕ) (how : Option Bytes) (ssu : SpanSampleUnderway) (l m : Latlearn)
    (ssu' : SpanSampleUnderway) (ok : Bool)
    → with_room e tick (λ l. end_sample how l ssu (e.clock tick)) l ≡ some (m, ssu', ok)
    → attempt e tick (end_span how ssu) l ≡ some ((ssu', ok), m)
unfolding attempt
ended_of e tick how ssu l m ssu' ok q = rw (q, attempt) refl

replied-Stays : {A : Type 0} {P : A → Type 0} (o : Option (A × Latlearn)) → Replies P o → Stays o
replied-Stays o (a, m, q, c, good) = (a, m, q, c)

pub attempt-Stays :
    (e : Env) (tick : ℕ) (c : Call) (l : Latlearn)
    → is_stop_call c ≡ false
    → Calm l
    → Stays (attempt e tick c l)
unfolding attempt report2 benchmarks call_values
attempt-Stays e tick now l n c = (e.clock tick, l, refl, c)
attempt-Stays e tick (init_spans spans) l n c =
    (tt, _, refl, init2-Calm e.host l spans (e.clock tick) c)
attempt-Stays e tick (set_report_fpath path) l n c = (
  tt,
  _,
  refl,
  Step-Calm e.host l _
      (configures l.outer_queue_capacity l.inner_queue_capacity l.should_report_builtins
        l.should_subtract_overhead path)
      refl refl refl refl c,
)
attempt-Stays e tick (set_should_report_builtins b) l n c = (
  tt,
  _,
  refl,
  Step-Calm e.host l _
      (configures l.outer_queue_capacity l.inner_queue_capacity b l.should_subtract_overhead
        l.report_fpath)
      refl refl refl refl c,
)
attempt-Stays e tick (set_should_subtract_overhead b) l n c = (
  tt,
  _,
  refl,
  Step-Calm e.host l _
      (configures l.outer_queue_capacity l.inner_queue_capacity l.should_report_builtins b
        l.report_fpath)
      refl refl refl refl c,
)
attempt-Stays e tick (end_span how ssu) l n c =
    let ((m, ssu', ok), q, d) =
      with_room_returns e tick (λ l. end_sample how l ssu (e.clock tick)) (λ r. Calm r.0)
        (λ l. end_sample-Returns how l ssu (e.clock tick)) (end_sample-Calm how ssu (e.clock tick))
        l c in
    ((ssu', ok), m, ended_of e tick how ssu l m ssu' ok q, d)
attempt-Stays e tick (ask_report params) l n c = replied-Stays _ (report-Replies e tick params l c)
attempt-Stays e tick ask_benchmarks l n c = replied-Stays _ (benchmarks-Replies e tick l c)
attempt-Stays e tick (ask_values span) l n c = replied-Stays _ (values-Replies e tick span l c)
attempt-Stays e tick ask_stop l n c = absurd (ground arith)
attempt-Stays e tick is_init_completed l n c = (l.init_completed, l, refl, c)
attempt-Stays e tick begin_self_sample l n c =
    (tt, _, refl, Step-Calm e.host l _ begins_self_sample refl refl refl refl c)
attempt-Stays e tick (rand_intn n) l stops c = (e.rand tick % n, l, refl, c)
attempt-Stays e tick (sleep duration) l n c = (tt, l, refl, c)
attempt-Stays e tick (end_self_sample true) l n c =
    (tt, _, refl, Step-Calm e.host l _ (ends_self_sample true) refl refl refl refl c)
attempt-Stays e tick (end_self_sample false) l n c =
    (tt, _, refl, Step-Calm e.host l _ (ends_self_sample false) refl refl refl refl c)

pub performed :
    (e : Env) (c : Call) (w : World) (l m : Latlearn) (a : Answer c)
    → take_turns e w.tick (e.turns w.tick) w.latlearn ≡ some l
    → attempt e w.tick c l ≡ some (a, m)
    → perform e c w
      ≡ some (a, record { latlearn = m; tick = suc w.tick; ended = w.ended ++ ended_by c a })
unfolding perform
performed e c w l m a q r = rw (q, r, perform) refl

-- What `perform` and `run` give: they return, and leave latlearn calm.
abbrev pub Finishes : {A : Type 0} → Option (A × World) → Type 0
Finishes {A} o = (a : A) × (w : World) × (o ≡ some (a, w)) × Calm w.latlearn

pub perform-Finishes :
    (e : Env) (c : Call) (w : World)
    → is_stop_call c ≡ false
    → Calm w.latlearn
    → Finishes (perform e c w)
perform-Finishes e c w n calm =
    let (l, q, d) = take_turns-Calm e w.tick (e.turns w.tick) w.latlearn calm in
    let (a, m, r, f) = attempt-Stays e w.tick c l n d in (a, _, performed e c w l m a q r, f)

pub run_calls :
    {A : Type 0} (e : Env) (c : Call) (k : Answer c → Program A) (w v : World) (a : Answer c)
    → perform e c w ≡ some (a, v)
    → run e (calls c k) w ≡ run e (k a) v
unfolding run
run_calls e c k w v a q = rw (q, run) refl

-- A program that sends no stop runs to its end, from a calm latlearn and however it takes turns with
-- `serve`: each of its calls returns, with room in the queue and an answer to each request.
pub run-Finishes :
    {A : Type 0} (e : Env) (p : Program A) (w : World)
    → NoStop p
    → Calm w.latlearn
    → Finishes (run e p w)
run-Finishes e (returns a) w n c = (a, w, unfold run in refl, c)
run-Finishes e (calls c k) w n calm =
    let (a, v, q, d) = perform-Finishes e c w n.0 calm in
    let (b, u, r, f) = run-Finishes e (k a) v (n.1 a) d in (b, u, run_calls e c k w v a q ∙ r, f)
