-- ===== src/System/Late.antt =====
-- After `serve` has finished: the steps of the process, and the sends of calls that are past their guard.
use latlearn.Common.{◌≡◌, refl, sym, ◌∙◌, true, some, List, [], ◌∷◌, ◌++◌, append-nil, append_assoc}
use latlearn.State.{Latlearn, CommMsg}
use latlearn.Report.Host.{Host}
use latlearn.Api.{send}
use latlearn.Api.Queued.{send-some}
use latlearn.System.{Step, here}
use latlearn.System.Stopped.{Step-Frozen, Reach-Frozen}

-- Steps of the process, and sends of calls that passed their guard before `serve` finished.
pub data LateReach (h : Host) (l : Latlearn) : Latlearn → Type 0 where
  starts : LateReach h l l
  steps : {m n : Latlearn} → LateReach h l m → Step h m n → LateReach h l n
  sends_late :
      (msg : CommMsg) {m n : Latlearn} → LateReach h l m → send m msg ≡ some n → LateReach h l n

-- The statistics and the answers are as they were, and messages have at most been added to the queue.
pub record Settled (l m : Latlearn) : Type 0 where
  pub finished : m.serve_finished ≡ true
  pub once : m.init_once ≡ true
  pub registry : m.registry ≡ l.registry
  pub done_chans : m.done_chans ≡ l.done_chans
  pub reply_chans : m.reply_chans ≡ l.reply_chans
  pub added : List CommMsg
  pub comm_outer : m.comm_outer ≡ l.comm_outer ++ added

send-Settled : (l m n : Latlearn) (msg : CommMsg) → send m msg ≡ some n → Settled l m → Settled l n
send-Settled l m n msg e f =
    let (room, same) = send-some m msg e in
    rw same (record {
      finished = f.finished;
      once = f.once;
      registry = f.registry;
      done_chans = f.done_chans;
      reply_chans = f.reply_chans;
      added = f.added ++ msg ∷ [];
      comm_outer = rw f.comm_outer (append_assoc l.comm_outer f.added (msg ∷ []));
    })

-- Once `serve` has finished, after `Init`, no sequence of steps changes the registry or the answers on
-- the channels `done` and `reply_chan`, or takes a message out of `comm_outer`, even where calls that
-- passed their guard before go on to send theirs: messages are at most added behind the others.
pub LateReach-Settled :
    (h : Host) {l m : Latlearn}
    → l.serve_finished ≡ true
    → l.init_once ≡ true
    → LateReach h l m
    → Settled l m
LateReach-Settled h {l} stopped used starts = record {
  finished = stopped;
  once = used;
  registry = refl;
  done_chans = refl;
  reply_chans = refl;
  added = [];
  comm_outer = sym (append-nil l.comm_outer);
}
LateReach-Settled h {l} stopped used (steps {m} {n} r s) =
    let f = LateReach-Settled h stopped used r in
    let k = Step-Frozen h m s (Reach-Frozen h f.finished f.once here) in
    record {
      finished = k.finished;
      once = k.once;
      registry = k.registry ∙ f.registry;
      done_chans = k.done_chans ∙ f.done_chans;
      reply_chans = k.reply_chans ∙ f.reply_chans;
      added = f.added;
      comm_outer = k.comm_outer ∙ f.comm_outer;
    }
LateReach-Settled h {l} stopped used (sends_late msg {m} {n} r e) =
    send-Settled l m n msg e (LateReach-Settled h stopped used r)
