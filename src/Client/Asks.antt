-- ===== src/Client/Asks.antt =====
-- The requests of a program: each is answered, in no more turns than there are messages in the queue.
use latlearn.Common.{
  ℕ, ◌<◌, sym, ◌≡◌, refl, ap, ◌∙◌, subst, inl, inr, Bytes, Bool, true, false, Bool-cases,
  Option-cases, Option, none, some, List, [], ◌∷◌, ◌++◌, codes, ◌==◌, arith, length, length-append,
  All,
}
use mathlib.Core.List.{map}
use latlearn.State.{Latlearn, CommMsg, ReplyMsg}
use latlearn.Server.Controls.{control, dones, replies}
use latlearn.Api.{is_open, new_msg, send, request, report2, benchmarks, call_values}
use latlearn.Api.Queued.{
  AsksAt, IsMade, send-some, request_closed, asking, request-Queued, request_full, request_sent,
}
use latlearn.Api.Sent.{Sent, request_msgs, request-Sent}
use latlearn.Api.Fits.{Returns, request-Returns}
use latlearn.System.Progress.{is_stop}
use latlearn.Client.{
  Env, ask_report, ask_benchmarks, ask_values, attempt, with_room, await, ask, find_reply,
  done_answer, reply_answer,
}
use latlearn.Client.Calm.{Calm, Taken, called-Calm}
use latlearn.Client.Waits.{with_room_returns, await_returns}

-- The messages `msg` are no stops, and `answer` reads the answer off the state after their round.
pub record Answers {A : Type 0} (msg : ℕ → CommMsg) (answer : ℕ → Latlearn → Option A)
    (IsAnswer : A → Type 0) : Type 0 where
  asks_at : AsksAt msg
  no_stop : (chan : ℕ) → is_stop (msg chan) ≡ false
  answers :
      (chan : ℕ) (l m : Latlearn) (rest : List CommMsg)
      → Taken l (msg chan) rest m
      → Returns (answer chan m)
  is_answer : (chan : ℕ) (l : Latlearn) (a : A) → answer chan l ≡ some a → IsAnswer a

-- What a request comes to: it returns, leaves latlearn calm, and if that is initialised its answer is
-- one.
abbrev pub Replies : {A : Type 0} → (A → Type 0) → Option (A × Latlearn) → Type 0
Replies {A} IsAnswer o =
    (a : A) × (m : Latlearn) × (o ≡ some (a, m)) × Calm m × (m.init_completed ≡ true → IsAnswer a)

-- A request that was accepted is at the end of the queue, and no other message or answer is about its
-- channel.
abbrev pub IsAsked : (ℕ → CommMsg) → Option ℕ → Latlearn → Type 0
IsAsked msg none l = l.init_completed ≡ false
IsAsked msg (some chan) l =
    (l.init_completed ≡ true)
    × (before : List CommMsg) × (l.comm_outer ≡ before ++ msg chan ∷ [])
    × All (IsMade chan) before
    × All (λ c. c < chan) l.done_chans

request_refused :
    (l : Latlearn) (msg : ℕ → CommMsg) (m : Latlearn)
    → request l msg ≡ some (m, none)
    → is_open l ≡ false
request_refused l msg m q = elim (Bool-cases (is_open l)) [
  | inr shut ↦ shut
  | inl open_ ↦ elim (Option-cases (send (asking l msg) (msg l.next_chan))) [
    | inl f ↦ absurd (ground (arith, request_full l msg open_ f))
    | inr (m', f) ↦ absurd (ground (arith, request_sent l msg m' open_ f))
  ]
]

request_accepted :
    (l : Latlearn) (msg : ℕ → CommMsg) (m : Latlearn) (chan : ℕ)
    → request l msg ≡ some (m, some chan)
    → (chan ≡ l.next_chan) × (m.done_chans ≡ l.done_chans)
request_accepted l msg m chan q = elim (Bool-cases (is_open l)) [
  | inr shut ↦ absurd (ground (arith, request_closed l msg shut))
  | inl open_ ↦ elim (Option-cases (send (asking l msg) (msg l.next_chan))) [
    | inl f ↦ absurd (ground (arith, request_full l msg open_ f))
    | inr (m', f) ↦
        let g = send-some (asking l msg) (msg l.next_chan) f in
        let sent : m ≡ m' = ground (arith, request_sent l msg m' open_ f) in
        (
          ground (arith, request_sent l msg m' open_ f),
          ap (λ (x : Latlearn). x.done_chans) (sent ∙ g.1),
        )
  ]
]

module _ {A : Type 0} (msg : ℕ → CommMsg) (answer : ℕ → Latlearn → Option A) (IsAnswer : A → Type 0)
    (a : Answers msg answer IsAnswer) where
  msgs_no_stop : (chan : Option ℕ) → All (λ m. is_stop m ≡ false) (request_msgs msg chan)
  msgs_no_stop none = tt
  msgs_no_stop (some chan) = (a.no_stop chan, tt)

  Sent-IsAsked :
      (l m : Latlearn) (chan : Option ℕ)
      → request l msg ≡ some (m, chan)
      → Calm l
      → Sent l (request_msgs msg chan) m
      → IsAsked msg chan m
  Sent-IsAsked l m none q c s =
      let shut = request_refused l msg m q in s.init_completed ∙ (ground (arith, c.unfinished))
  Sent-IsAsked l m (some chan) q c s =
      let (fresh, same_done) = request_accepted l msg m chan q in
      (
        s.init_completed ∙ elim s.ready [ inl empty ↦ absurd (ground arith) | inr on ↦ on ],
        l.comm_outer,
        s.queue,
        subst (λ i. All (IsMade i) l.comm_outer) (sym fresh) c.inv.numbered.queued,
        rw (same_done, fresh) c.inv.numbered.done_made,
      )

  pub request_sound :
      (l : Latlearn) (r : Latlearn × Option ℕ)
      → request l msg ≡ some r
      → Calm l
      → Calm r.0 × IsAsked msg r.1 r.0
  request_sound l (m, chan) q c =
      let s = request-Sent l msg m chan q in
      (
        called-Calm l m (request_msgs msg chan) (request-Queued l msg m chan a.asks_at q) s
            (msgs_no_stop chan) c,
        Sent-IsAsked l m chan q c s,
      )

  ask_refused :
      (e : Env) (tick : ℕ) (refused : A) (l m : Latlearn)
      → with_room e tick (λ l. request l msg) l ≡ some (m, none)
      → ask e tick (λ l. request l msg) answer refused l ≡ some (refused, m)
  unfolding ask
  ask_refused e tick refused l m q = rw (q, ask) refl

  pub ask_waits :
      (e : Env) (tick : ℕ) (refused : A) (l m : Latlearn) (chan : ℕ)
      → with_room e tick (λ l. request l msg) l ≡ some (m, some chan)
      → ask e tick (λ l. request l msg) answer refused l
        ≡ await e tick (answer chan) (length m.comm_outer) m
  unfolding ask
  ask_waits e tick refused l m chan q = rw (q, ask) refl

  ask-Replies :
      (e : Env) (tick : ℕ) (refused : A) (l : Latlearn)
      → Calm l
      → Replies IsAnswer (ask e tick (λ l. request l msg) answer refused l)
  ask-Replies e tick refused l c =
      let (r, q, p) =
        with_room_returns e tick (λ l. request l msg) (λ r. Calm r.0 × IsAsked msg r.1 r.0)
          (λ l. request-Returns l msg) request_sound l c in
      go r.0 r.1 q p.0 p.1
    where
      go :
          (m : Latlearn) (chan : Option ℕ)
          → with_room e tick (λ l. request l msg) l ≡ some (m, chan)
          → Calm m
          → IsAsked msg chan m
          → Replies IsAnswer (ask e tick (λ l. request l msg) answer refused l)
      go m none q d off =
          (refused, m, ask_refused e tick refused l m q, d, λ on. absurd (ground arith))
      go m (some chan) q d (on, before, last, _, _) =
          let (b, n, r, f, k, found) =
            await_returns e tick (answer chan) (λ k. k ≡ msg chan)
              (λ l m k rest p t. a.answers chan l m rest (subst (λ k. Taken l k rest m) p t))
              (length m.comm_outer) m before (msg chan) d on last refl
              (omega (arith, ap length last, length-append before (msg chan ∷ []))) in
          (b, n, ask_waits e tick refused l m chan q ∙ r, f, λ on. a.is_answer chan k b found)

-- The answers to the three requests: true, or the reply.
abbrev pub IsTrue : Bool → Type 0
IsTrue ok = ok ≡ true

abbrev pub IsReply : Option ReplyMsg → Type 0
IsReply reply = (r : ReplyMsg) × (reply ≡ some r)

done_answer-IsTrue : (chan : ℕ) (l : Latlearn) (a : Bool) → done_answer chan l ≡ some a → a ≡ true
done_answer-IsTrue chan l a q = ground arith

reply_answer-IsReply :
    (chan : ℕ) (l : Latlearn) (a : Option ReplyMsg) → reply_answer chan l ≡ some a → IsReply a
reply_answer-IsReply chan l a q = elim (Option-cases (find_reply chan l.reply_chans)) [
  | inl f ↦ absurd (ground arith)
  | inr (r, f) ↦ (r, ground arith)
]

done_answered :
    (chan : ℕ) (l m : Latlearn) → m.done_chans ≡ chan ∷ l.done_chans → Returns (done_answer chan m)
done_answered chan l m e = (true, rw e (ground arith))

find_reply_first :
    (chan : ℕ) (rs : List (ℕ × ReplyMsg)) (cs : List ℕ)
    → map (λ (answer : ℕ × ReplyMsg). answer.0) rs ≡ chan ∷ cs
    → Returns (find_reply chan rs)
find_reply_first chan [] cs e = absurd (ground arith)
find_reply_first chan ((c, reply) ∷ rs) cs e =
    let same : c ≡ chan = ground arith in (reply, rw same (ground arith))

abbrev pub report_msg_to : List Bytes → ℕ → CommMsg
report_msg_to params chan = record (new_msg (codes "report")) { params = params; done = some chan }

pub report-Answers : (params : List Bytes) → Answers (report_msg_to params) done_answer IsTrue
unfolding ◌==◌ dones
report-Answers params = record {
  asks_at = λ chan. (omega arith, tt);
  no_stop = λ chan. refl;
  is_answer = done_answer-IsTrue;
  answers = λ chan l m rest t. done_answered chan l m t.done_chans;
}

abbrev benchmarks_msg_to : ℕ → CommMsg
benchmarks_msg_to chan = record (new_msg (codes "benchmarks")) { done = some chan }

benchmarks-Answers : Answers benchmarks_msg_to done_answer IsTrue
unfolding ◌==◌ dones
benchmarks-Answers = record {
  asks_at = λ chan. (omega arith, tt);
  no_stop = λ chan. refl;
  is_answer = done_answer-IsTrue;
  answers = λ chan l m rest t. done_answered chan l m t.done_chans;
}

abbrev values_msg_to : Bytes → ℕ → CommMsg
values_msg_to span chan = record (new_msg (codes "values")) { name = span; reply_chan = some chan }

values-Answers : (span : Bytes) → Answers (values_msg_to span) reply_answer IsReply
unfolding ◌==◌ replies
values-Answers span = record {
  asks_at = λ chan. (tt, omega arith);
  no_stop = λ chan. refl;
  is_answer = reply_answer-IsReply;
  answers = λ chan l m rest t.
      let (reply, q) = find_reply_first chan m.reply_chans (control l).replied t.replied in
      (some reply, rw (q, reply_answer) refl);
}

module _ (e : Env) (tick : ℕ) where
  pub report-Replies :
      (params : List Bytes) (l : Latlearn)
      → Calm l
      → Replies IsTrue (attempt e tick (ask_report params) l)
  unfolding attempt report2
  report-Replies params l c =
      ask-Replies (report_msg_to params) done_answer IsTrue (report-Answers params) e tick false l c

  pub benchmarks-Replies :
      (l : Latlearn) → Calm l → Replies IsTrue (attempt e tick ask_benchmarks l)
  unfolding attempt benchmarks
  benchmarks-Replies l c =
      ask-Replies benchmarks_msg_to done_answer IsTrue benchmarks-Answers e tick false l c

  pub values-Replies :
      (span : Bytes) (l : Latlearn) → Calm l → Replies IsReply (attempt e tick (ask_values span) l)
  unfolding attempt call_values
  values-Replies span l c =
      ask-Replies (values_msg_to span) reply_answer IsReply (values-Answers span) e tick none l c
