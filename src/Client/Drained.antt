-- ===== src/Client/Drained.antt =====
-- The wait for a report ends with the queue empty: the answer comes in no other turn than that of its
-- own message, the last in the queue.
use latlearn.Common.{
  ℕ, zero, suc, ◌<◌, ◌≡◌, refl, ap, ◌∙◌, subst, true, false, Option, none, some, List, [], ◌∷◌,
  ◌++◌, ◌==◌, Bytes, arith, length, length-append, All, All-append,
}
use latlearn.State.{Latlearn, CommMsg}
use latlearn.Server.Controls.{dones}
use latlearn.Api.{report2, request}
use latlearn.Api.Fits.{request-Returns}
use latlearn.Api.Queued.{IsMade}
use latlearn.System.Numbered.{dones-Made}
use latlearn.Client.{Env, ask_report, turn, with_room, await, attempt, mem_chan, done_answer}
use latlearn.System.Completed.{Reach-completed}
use latlearn.Client.Sends.{Sends, Sends-same, Sends-later}
use latlearn.Client.Turns.{turn-Sends, with_room-Sends}
use latlearn.Client.Runs.{report-Sends}
use latlearn.Client.Calm.{Calm, Taken, turn-Taken}
use latlearn.Client.Waits.{with_room_returns}
use latlearn.Client.Asks.{IsAsked, IsTrue, request_sound, ask_waits, report_msg_to, report-Answers}

not_answered : (chan : ℕ) (cs : List ℕ) → All (λ c. c < chan) cs → mem_chan chan cs ≡ false
not_answered chan [] all = refl
not_answered chan (c ∷ cs) (first, rest) = ground (arith, not_answered chan cs rest)

module _ (e : Env) (tick : ℕ) where
  -- From `l` to `m`, by the last turn: that from `asked`, which takes `msg`, with nothing else to take.
  pub record LastTurn (l : Latlearn) (msg : CommMsg) (m : Latlearn) : Type 0 where
    pub asked : Latlearn
    pub turn_number : ℕ
    pub sends : Sends e.host l asked []
    pub calm : Calm asked
    pub completed : asked.init_completed ≡ true
    pub queue : asked.comm_outer ≡ msg ∷ []
    pub turns : turn e.host (e.serve_clock tick turn_number) asked ≡ some m
    pub taken : Taken asked msg [] m

  module _ (chan : ℕ) where
    not_yet :
        (n : ℕ) (l m : Latlearn)
        → All (λ c. c < chan) l.done_chans
        → turn e.host (e.serve_clock tick n) l ≡ some m
        → await e tick (done_answer chan) (suc n) l ≡ await e tick (done_answer chan) n m
    unfolding await
    not_yet n l m all t = rw (not_answered chan l.done_chans all, t, await) refl

    at_once :
        (n : ℕ) (m : Latlearn)
        → mem_chan chan m.done_chans ≡ true
        → await e tick (done_answer chan) n m ≡ some (true, m)
    unfolding await
    at_once zero m q = rw (q, await) refl
    at_once (suc n) m q = rw (q, await) refl

    drains :
        (n : ℕ) (l : Latlearn) (before : List CommMsg) (msg : CommMsg)
        → Calm l
        → l.init_completed ≡ true
        → l.comm_outer ≡ before ++ msg ∷ []
        → All (IsMade chan) before
        → All (λ c. c < chan) l.done_chans
        → dones msg ≡ chan ∷ []
        → length before < n
        → (m : Latlearn) × (await e tick (done_answer chan) n l ≡ some (true, m)) × LastTurn l msg m
    drains zero l before msg c on q others answers d few = elim few [ ]
    drains (suc n) l [] msg c on q others answers d few =
        let (m, t, taken) = turn-Taken e.host (e.serve_clock tick n) l c msg [] on q in
        let here : m.done_chans ≡ chan ∷ l.done_chans =
          taken.done_chans ∙ ap (λ cs. cs ++ l.done_chans) d in
        let found : mem_chan chan m.done_chans ≡ true = rw here (ground arith) in
        (
          m,
          not_yet n l m answers t ∙ at_once n m found,
          record {
            asked = l;
            turn_number = n;
            sends = Sends-same e.host l l refl;
            calm = c;
            completed = on;
            queue = q;
            turns = t;
            taken = taken;
          },
        )
    drains (suc n) l (x ∷ before) msg c on q (other, others) answers d few =
        let (k, t, taken) =
          turn-Taken e.host (e.serve_clock tick n) l c x (before ++ msg ∷ []) on q in
        let still : All (λ c. c < chan) k.done_chans =
          rw taken.done_chans (
            All-append (λ c. c < chan) (dones x) l.done_chans (dones-Made chan x other.0)
              answers) in
        let (m, r, last) =
          drains n k before msg taken.calm taken.completed taken.queue others still d
            (omega arith) in
        (
          m,
          not_yet n l k answers t ∙ r,
          record {
            asked = last.asked;
            turn_number = last.turn_number;
            sends = Sends-later e.host (turn-Sends e.host (e.serve_clock tick n) l k t) last.sends;
            calm = last.calm;
            completed = last.completed;
            queue = last.queue;
            turns = last.turns;
            taken = last.taken;
          },
        )

  on-IsAsked :
      (msg : ℕ → CommMsg) (l m : Latlearn) (chan : Option ℕ)
      → IsAsked msg chan m
      → m.init_completed ≡ true
      → (c : ℕ) × (chan ≡ some c) × IsAsked msg (some c) m
  on-IsAsked msg l m none asked on = absurd (ground arith)
  on-IsAsked msg l m (some c) asked on = (c, refl, asked)

  -- A calm and initialised latlearn answers a request for a report with true, by the last turn.
  pub report-LastTurn :
      (params : List Bytes) (l : Latlearn)
      → Calm l
      → l.init_completed ≡ true
      → (m : Latlearn) × (chan : ℕ) × (attempt e tick (ask_report params) l ≡ some (true, m))
        × LastTurn l (report_msg_to params chan) m
  unfolding attempt report2 ◌==◌ dones
  report-LastTurn params l c on =
      let msg = report_msg_to params in
      let a = report-Answers params in
      let ((k, chan), q, (calm, asked)) =
        with_room_returns e tick (λ l. request l msg) (λ r. Calm r.0 × IsAsked msg r.1 r.0)
          (λ l. request-Returns l msg) (request_sound msg done_answer IsTrue a) l c in
      let sent =
        with_room-Sends e tick (λ r. r.0) (λ r. []) (λ l. report2 l params)
          (report-Sends e tick params) l (k, chan) q in
      let on_k = Reach-completed e.host sent.reach on in
      let (c, at, (_, before, last, others, answers)) = on-IsAsked msg l k chan asked on_k in
      let q_at : with_room e tick (λ l. request l msg) l ≡ some (k, some c) =
        subst (λ chan. with_room e tick (λ l. request l msg) l ≡ some (k, chan)) at q in
      let (m, r, turn) =
        drains c (length k.comm_outer) k before (msg c) calm on_k last others answers refl
          (omega (arith, ap length last, length-append before (msg c ∷ []))) in
      (
        m,
        c,
        ask_waits msg done_answer IsTrue a e tick false l k c q_at ∙ r,
        record {
          asked = turn.asked;
          turn_number = turn.turn_number;
          sends = Sends-later e.host sent turn.sends;
          calm = turn.calm;
          completed = turn.completed;
          queue = turn.queue;
          turns = turn.turns;
          taken = turn.taken;
        },
      )
