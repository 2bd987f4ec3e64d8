-- ===== src/System/Answers.antt =====
-- The answers that `serve` gives to the requests, in the running process.
use latlearn.Common.{
  ℕ, ◌≡◌, refl, sym, ap, ◌∙◌, inl, inr, ℤ, Bytes, true, false, List, [], ◌∷◌, ◌++◌, append-nil,
  append_assoc, arith, gather, gather-append, some,
}
use mathlib.Core.List.{map}
use latlearn.State.{Latlearn, CommMsg, ReplyMsg}
use latlearn.Report.Host.{Host}
use latlearn.Server.{serve_start, serve_outer, serve_inner, finish, handle_comm_msg}
use latlearn.Server.Controls.{dones, replies}
use latlearn.Api.{init2, init_inner}
use latlearn.Api.Queued.{
  Queued, ssu_a-Queued, ssu_a2-Queued, report2-Queued, benchmarks-Queued, call_values-Queued,
  stop-Queued,
}
use latlearn.System.{
  process_start, Step, Reach, initialises, configures, ends, ends_variant, asks_report,
  asks_benchmarks, asks_values, asks_stop, begins_self_sample, ends_self_sample, serve_starts,
  serves_outer, serves_inner, here, next,
}
use latlearn.System.Round.{round-answers}
use latlearn.System.Order.{handled_by, all_handled}

-- The numbers of the channels that have been answered, the newest first.
abbrev pub replied_chans : Latlearn → List ℕ
replied_chans l = map (λ (answer : ℕ × ReplyMsg). answer.0) l.reply_chans

-- From `l` to `m` the messages `msgs` have been answered, and no others.
record Answered (l : Latlearn) (msgs : List CommMsg) (m : Latlearn) : Type 0 where
  done : m.done_chans ≡ gather dones msgs ++ l.done_chans
  replied : replied_chans m ≡ gather replies msgs ++ replied_chans l

Answered-kept :
    (l m : Latlearn) → m.done_chans ≡ l.done_chans → m.reply_chans ≡ l.reply_chans → Answered l [] m
Answered-kept l m d r = record {
  done = d;
  replied = ap (map (λ (answer : ℕ × ReplyMsg). answer.0)) r;
}

Answered-Queued : (l m : Latlearn) → Queued l m → Answered l [] m
Answered-Queued l m (inl e) =
    Answered-kept l m (ap (λ (x : Latlearn). x.done_chans) e)
      (ap (λ (x : Latlearn). x.reply_chans) e)
Answered-Queued l m (inr (msg, n, o, room, e, more, made)) =
    Answered-kept l m (ap (λ (x : Latlearn). x.done_chans) e)
      (ap (λ (x : Latlearn). x.reply_chans) e)

init2-kept :
    (l : Latlearn) (spans_app : List Bytes) (now : ℤ)
    → ((init2 l spans_app now).done_chans ≡ l.done_chans)
      × ((init2 l spans_app now).reply_chans ≡ l.reply_chans)
unfolding init2 init_inner
init2-kept l spans_app now = ground arith

Answered-round :
    (h : Host) (clock : ℕ → ℤ) (l m : Latlearn) (msg : CommMsg)
    → finish (handle_comm_msg h clock l msg) ≡ some m
    → Answered l (msg ∷ []) m
Answered-round h clock l m msg e =
    let (d, r) = round-answers h clock l msg m e in record { done = d; replied = r }

Step-Answered : {h : Host} {l m : Latlearn} (s : Step h l m) → Answered l (handled_by s) m
unfolding handled_by
Step-Answered {l = l} {m = m} (initialises spans now) =
    let (d, r) = init2-kept l spans now in Answered-kept l _ d r
Step-Answered {l = l} {m = m} (configures outer inner builtins subtract path) =
    Answered-kept l m refl refl
Step-Answered {l = l} {m = m} (ends ssu ssu' now ok e) =
    Answered-Queued l m (ssu_a-Queued l ssu now m ssu' ok e)
Step-Answered {l = l} {m = m} (ends_variant ssu ssu' variant now ok e) =
    Answered-Queued l m (ssu_a2-Queued l ssu variant now m ssu' ok e)
Step-Answered {l = l} {m = m} (asks_report params chan e) =
    Answered-Queued l m (report2-Queued l m params chan e)
Step-Answered {l = l} {m = m} (asks_benchmarks chan e) =
    Answered-Queued l m (benchmarks-Queued l m chan e)
Step-Answered {l = l} {m = m} (asks_values span chan e) =
    Answered-Queued l m (call_values-Queued l m span chan e)
Step-Answered {l = l} {m = m} (asks_stop ok e) = Answered-Queued l m (stop-Queued l m ok e)
Step-Answered {l = l} {m = m} begins_self_sample = Answered-kept l m refl refl
Step-Answered {l = l} {m = m} (ends_self_sample true) = Answered-kept l m refl refl
Step-Answered {l = l} {m = m} (ends_self_sample false) = Answered-kept l m refl refl
Step-Answered {l = l} {m = m} (serve_starts done fresh) =
    unfold serve_start in Answered-kept l m refl refl
Step-Answered {h} {l} {m} (serves_outer clock msg rest running unfinished q e) =
    let a =
      Answered-round h clock (record l { comm_outer = rest }) m msg (unfold serve_outer in e) in
    record { done = a.done; replied = a.replied }
Step-Answered {h} {l} {m} (serves_inner clock msg rest running unfinished q e) =
    let a =
      Answered-round h clock (record l { comm_inner = rest }) m msg (unfold serve_inner in e) in
    record { done = a.done; replied = a.replied }

gathered :
    (f : CommMsg → List ℕ) (xs ys : List CommMsg) (a b c : List ℕ)
    → b ≡ gather f xs ++ a
    → c ≡ gather f ys ++ b
    → c ≡ gather f (xs ++ ys) ++ a
gathered f xs ys a b c e k =
    k
    ∙ ap (λ t. gather f ys ++ t) e
    ∙ sym (append_assoc (gather f ys) (gather f xs) a)
    ∙ ap (λ t. t ++ a) (sym (gather-append f xs ys))

Reach-Answered : {h : Host} {l m : Latlearn} (r : Reach h l m) → Answered l (all_handled r) m
unfolding all_handled
Reach-Answered here = record { done = refl; replied = refl }
Reach-Answered {l = l} (next {m} {n} r s) =
    let p = Reach-Answered r in
    let t = Step-Answered s in
    record {
      done =
          gathered dones (all_handled r) (handled_by s) l.done_chans m.done_chans n.done_chans
            p.done t.done;
      replied =
          gathered replies (all_handled r) (handled_by s) (replied_chans l) (replied_chans m)
            (replied_chans n) p.replied t.replied;
    }

-- In every state that the process reaches, the answers are exactly those that the handled messages
-- ask for, in order: one on `done` for each report or run of the benchmarks that names a channel,
-- one on `reply_chan` for each request for values that does, and none for any other message.
pub Reach-answers :
    (h : Host) (l : Latlearn) (r : Reach h process_start l)
    → (l.done_chans ≡ gather dones (all_handled r))
      × (replied_chans l ≡ gather replies (all_handled r))
Reach-answers h l r =
    let a = Reach-Answered r in
    (
      a.done ∙ append-nil (gather dones (all_handled r)),
      a.replied ∙ append-nil (gather replies (all_handled r)),
    )
