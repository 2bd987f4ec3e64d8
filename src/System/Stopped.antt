-- ===== src/System/Stopped.antt =====
-- After a stop: nothing more is handled, and a call that still waits for its answer waits for ever.
use latlearn.Common.{
  ℕ, suc, ◌≡◌, refl, sym, subst, ◌∙◌, inl, inr, ℤ, pos, Bytes, true, false, List, [], ◌∷◌, codes,
  ◌==◌, arith, some,
}
use latlearn.Common.Int.{◌≤ℤ◌}
use latlearn.State.{Latlearn, CommMsg}
use latlearn.Report.Host.{Host}
use latlearn.Server.{serve_start, serve_outer, handle_comm_msg}
use latlearn.Api.{is_open, new_msg, init2, request, send, report2, stop}
use latlearn.Api.Queued.{
  Queued, ssu_a-Queued, ssu_a2-Queued, report2-Queued, benchmarks-Queued, call_values-Queued,
  stop-Queued,
}
use latlearn.System.{
  Step, Reach, initialises, configures, ends, ends_variant, asks_report, asks_benchmarks,
  asks_values, asks_stop, serve_starts, begins_self_sample, ends_self_sample, serves_outer,
  serves_inner, here, next,
}

-- What a finished server leaves for good: the statistics, the answers, and the unread messages.
pub record Frozen (l m : Latlearn) : Type 0 where
  pub finished : m.serve_finished ≡ true
  pub once : m.init_once ≡ true
  pub registry : m.registry ≡ l.registry
  pub done_chans : m.done_chans ≡ l.done_chans
  pub reply_chans : m.reply_chans ≡ l.reply_chans
  pub comm_outer : m.comm_outer ≡ l.comm_outer

Frozen-same : (l m n : Latlearn) → n ≡ m → Frozen l m → Frozen l n
Frozen-same l m n e f = subst (Frozen l) (sym e) f

Queued-Frozen : (l m n : Latlearn) → Queued m n → Frozen l m → Frozen l n
Queued-Frozen l m n (inl e) f = Frozen-same l m n e f
Queued-Frozen l m n (inr (msg, k, o, room, e, more, made)) f = absurd (ground (arith, f.finished))

init2_used :
    (m : Latlearn) (spans : List Bytes) (now : ℤ) → m.init_once ≡ true → init2 m spans now ≡ m
unfolding init2
init2_used m spans now e = ground arith

Frozen-kept :
    (l m n : Latlearn)
    → n.serve_finished ≡ m.serve_finished
    → n.init_once ≡ m.init_once
    → n.registry ≡ m.registry
    → n.done_chans ≡ m.done_chans
    → n.reply_chans ≡ m.reply_chans
    → n.comm_outer ≡ m.comm_outer
    → Frozen l m
    → Frozen l n
Frozen-kept l m n a b c d e q f = record {
  finished = a ∙ f.finished;
  once = b ∙ f.once;
  registry = c ∙ f.registry;
  done_chans = d ∙ f.done_chans;
  reply_chans = e ∙ f.reply_chans;
  comm_outer = q ∙ f.comm_outer;
}

pub Step-Frozen : (h : Host) (l : Latlearn) {m n : Latlearn} → Step h m n → Frozen l m → Frozen l n
Step-Frozen h l {m} (initialises spans_app now) f =
    Frozen-same l m _ (init2_used m spans_app now f.once) f
Step-Frozen h l {m} {n} (configures outer inner builtins subtract path) f =
    Frozen-kept l m n refl refl refl refl refl refl f
Step-Frozen h l {m} {n} (ends ssu ssu' now ok e) f =
    Queued-Frozen l m n (ssu_a-Queued m ssu now n ssu' ok e) f
Step-Frozen h l {m} {n} (ends_variant ssu ssu' variant now ok e) f =
    Queued-Frozen l m n (ssu_a2-Queued m ssu variant now n ssu' ok e) f
Step-Frozen h l {m} {n} (asks_report params chan e) f =
    Queued-Frozen l m n (report2-Queued m n params chan e) f
Step-Frozen h l {m} {n} (asks_benchmarks chan e) f =
    Queued-Frozen l m n (benchmarks-Queued m n chan e) f
Step-Frozen h l {m} {n} (asks_values span chan e) f =
    Queued-Frozen l m n (call_values-Queued m n span chan e) f
Step-Frozen h l {m} {n} (asks_stop ok e) f = Queued-Frozen l m n (stop-Queued m n ok e) f
Step-Frozen h l {m} {n} begins_self_sample f = Frozen-kept l m n refl refl refl refl refl refl f
Step-Frozen h l {m} {n} (ends_self_sample true) f =
    Frozen-kept l m n refl refl refl refl refl refl f
Step-Frozen h l {m} {n} (ends_self_sample false) f =
    Frozen-kept l m n refl refl refl refl refl refl f
Step-Frozen h l {m} {n} (serve_starts _ _) f =
    unfold serve_start in Frozen-kept l m n refl refl refl refl refl refl f
Step-Frozen h l (serves_outer clock msg rest _ running q e) f = absurd (ground (arith, f.finished))
Step-Frozen h l (serves_inner clock msg rest _ running q e) f = absurd (ground (arith, f.finished))

-- With guard and send in one step, nothing changes once `serve` has finished.
pub Reach-Frozen :
    (h : Host) {l m : Latlearn}
    → l.serve_finished ≡ true
    → l.init_once ≡ true
    → Reach h l m
    → Frozen l m
Reach-Frozen h {l} stopped used here = record {
  finished = stopped;
  once = used;
  registry = refl;
  done_chans = refl;
  reply_chans = refl;
  comm_outer = refl;
}
Reach-Frozen h {l} stopped used (next r s) = Step-Frozen h l s (Reach-Frozen h stopped used r)

abbrev pub stop_msg : CommMsg
stop_msg = new_msg (codes "stop")

abbrev pub report_msg : ℕ → CommMsg
report_msg chan = record (new_msg (codes "report")) { done = some chan }

-- `Stop` and `Report` have sent their messages, and `serve` has taken the first.
abbrev pub hung : Latlearn → Latlearn
hung l = record l {
  comm_outer = report_msg l.next_chan ∷ [];
  next_chan = suc l.next_chan;
  serve_finished = true;
}

module _ (l : Latlearn) (open_ : is_open l ≡ true) (idle : l.comm_outer ≡ [])
    (room : pos 2 ≤ℤ l.cap_outer) (running : l.serve_started ≡ true) where
  after_stop : Latlearn
  after_stop = record l { comm_outer = stop_msg ∷ [] }

  stop_sent : stop l ≡ some (after_stop, true)
  unfolding stop send after_stop
  stop_sent = ground arith

  report_sent :
      report2 after_stop []
      ≡ some (
        record l {
          comm_outer = stop_msg ∷ report_msg l.next_chan ∷ [];
          next_chan = suc l.next_chan;
        },
        some l.next_chan,
      )
  unfolding report2 request send after_stop
  report_sent = ground arith

  stop_served :
      (h : Host) (clock : ℕ → ℤ)
      → serve_outer h clock
          (record l {
            comm_outer = stop_msg ∷ report_msg l.next_chan ∷ [];
            next_chan = suc l.next_chan;
          })
          stop_msg
          (report_msg l.next_chan ∷ [])
        ≡ some (hung l)
  unfolding serve_outer handle_comm_msg ◌==◌
  stop_served h clock = refl

  hung-Reach : (h : Host) (clock : ℕ → ℤ) → Reach h l (hung l)
  unfolding after_stop
  hung-Reach h clock =
      next
        (next (next here (asks_stop true stop_sent))
          (asks_report [] (some l.next_chan) report_sent))
        (serves_outer clock stop_msg (report_msg l.next_chan ∷ []) (ground arith) (ground arith)
          refl (stop_served h clock))

-- From any open state after `Init` in which `serve` runs, with an empty queue that has room for two messages, the process
-- can reach a state, by a `Stop`, a `Report` and a round of `serve`, after which in every reachable
-- state the report's message is still in the queue and no further answer has been sent to `done`.
pub report_after_stop :
    (h : Host) (clock : ℕ → ℤ) (l m : Latlearn)
    → is_open l ≡ true
    → l.init_once ≡ true
    → l.comm_outer ≡ []
    → pos 2 ≤ℤ l.cap_outer
    → l.serve_started ≡ true
    → Reach h (hung l) m
    → Reach h l (hung l)
      × (m.comm_outer ≡ report_msg l.next_chan ∷ [])
      × (m.done_chans ≡ l.done_chans)
report_after_stop h clock l m open_ used idle room running later =
    let f = Reach-Frozen h refl used later in
    (hung-Reach l open_ idle room running h clock, f.comm_outer, f.done_chans)
