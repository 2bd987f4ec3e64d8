-- ===== src/System/Numbered.antt =====
-- The channels that the calls make for their answers: each that the state names has been made.
use latlearn.Common.{
  ℕ, ◌≤◌, ◌<◌, ◌≡◌, ap, inl, inr, ℤ, Option, none, some, List, [], ◌∷◌, ◌++◌, codes, ◌==◌, arith,
  Bool-cases, All, All-append,
}
use latlearn.State.{Latlearn, CommMsg}
use latlearn.Report.Host.{Host}
use latlearn.Server.{finish, handle_comm_msg}
use latlearn.Server.Controls.{Control, control, chans, dones, replies}
use latlearn.Api.Queued.{IsMade, Made}
use latlearn.System.Round.{round-channels, round-answers}

-- Of the first `n` channels are those that the queued messages name, and those of the answers.
pub record Numbered (n : ℕ) (queue : List CommMsg) (done replied : List ℕ) : Type 0 where
  pub queued : All (IsMade n) queue
  pub done_made : All (λ chan. chan < n) done
  pub replied_made : All (λ chan. chan < n) replied

abbrev pub IsNumbered : Latlearn → Type 0
IsNumbered l = Numbered l.next_chan l.comm_outer l.done_chans (control l).replied

Made-more : (m n : ℕ) (chan : Option ℕ) → m ≤ n → Made m chan → Made n chan
Made-more m n none more made = tt
Made-more m n (some chan) more made = omega arith

All-more : (m n : ℕ) (chans : List ℕ) → m ≤ n → All (λ c. c < m) chans → All (λ c. c < n) chans
All-more m n [] more all = tt
All-more m n (c ∷ chans) more (first, rest) = (omega arith, All-more m n chans more rest)

queue-more : (m n : ℕ) (queue : List CommMsg) → m ≤ n → All (IsMade m) queue → All (IsMade n) queue
queue-more m n [] more all = tt
queue-more m n (msg ∷ queue) more ((d, r), rest) = (
  (Made-more m n msg.done more d, Made-more m n msg.reply_chan more r),
  queue-more m n queue more rest,
)

pub Numbered-sent :
    (m n : ℕ) (queue : List CommMsg) (done replied : List ℕ) (msg : CommMsg)
    → m ≤ n
    → IsMade n msg
    → Numbered m queue done replied
    → Numbered n (queue ++ msg ∷ []) done replied
Numbered-sent m n queue done replied msg more made v = record {
  queued = All-append (IsMade n) queue (msg ∷ []) (queue-more m n queue more v.queued) (made, tt);
  done_made = All-more m n done more v.done_made;
  replied_made = All-more m n replied more v.replied_made;
}

chans-Made : (n : ℕ) (chan : Option ℕ) → Made n chan → All (λ c. c < n) (chans chan)
chans-Made n none made = tt
chans-Made n (some chan) made = (made, tt)

pub dones-Made : (n : ℕ) (msg : CommMsg) → Made n msg.done → All (λ c. c < n) (dones msg)
unfolding dones
dones-Made n msg made =
    let all = chans-Made n msg.done made in
    elim (Bool-cases (msg.ttype == codes "A")) [
      | inl a ↦ rw a tt
      | inr a ↦ elim (Bool-cases (msg.ttype == codes "values")) [
        | inl v ↦ rw (a, v) tt
        | inr v ↦ elim (Bool-cases (msg.ttype == codes "benchmarks")) [
          | inl b ↦ rw (a, v, b) all
          | inr b ↦ elim (Bool-cases (msg.ttype == codes "report")) [
            | inl r ↦ rw (a, v, b, r) all
            | inr r ↦ rw (a, v, b, r) tt
          ]
        ]
      ]
    ]

replies-Made : (n : ℕ) (msg : CommMsg) → Made n msg.reply_chan → All (λ c. c < n) (replies msg)
unfolding replies
replies-Made n msg made =
    let all = chans-Made n msg.reply_chan made in
    elim (Bool-cases (msg.ttype == codes "A")) [
      | inl a ↦ rw a tt
      | inr a ↦ elim (Bool-cases (msg.ttype == codes "values")) [
        | inl v ↦ rw (a, v) all
        | inr v ↦ rw (a, v) tt
      ]
    ]

-- A round of `serve`, which leaves the channels as they are, its message and the answers apart.
pub round-IsNumbered :
    (h : Host) (clock : ℕ → ℤ) (l m : Latlearn) (msg : CommMsg) (rest : List CommMsg)
    → finish (handle_comm_msg h clock (record l { comm_outer = rest }) msg) ≡ some m
    → Numbered l.next_chan (msg ∷ rest) l.done_chans (control l).replied
    → IsNumbered m
round-IsNumbered h clock l m msg rest e v =
    let k = round-channels h clock (record l { comm_outer = rest }) msg m e in
    let (d, r) = round-answers h clock (record l { comm_outer = rest }) msg m e in
    let after : Numbered l.next_chan rest (dones msg ++ l.done_chans)
        (replies msg ++ (control l).replied) =
      record {
        queued = v.queued.1;
        done_made =
            All-append (λ c. c < l.next_chan) (dones msg) l.done_chans
              (dones-Made l.next_chan msg v.queued.0.0) v.done_made;
        replied_made =
            All-append (λ c. c < l.next_chan) (replies msg) (control l).replied
              (replies-Made l.next_chan msg v.queued.0.1) v.replied_made;
      } in
    rw (ap (λ (c : Control). c.next_chan) k, ap (λ (c : Control). c.comm_outer) k, d, r) after
