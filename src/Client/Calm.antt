-- ===== src/Client/Calm.antt =====
-- latlearn while nothing stops it: each turn of `serve` takes the oldest message, and each call has
-- room after a turn.
use latlearn.Common.{
  List-cases, ℕ, suc, ◌≡◌, refl, sym, ap, ◌∙◌, subst, ◌⊎◌, inl, inr, ℤ, pos, true, false, some,
  List, [], ◌∷◌, ◌++◌, arith, Bool-cases, length, All, All-append,
}
use latlearn.Common.Int.{◌≤ℤ◌}
use latlearn.State.{Latlearn, CommMsg}
use latlearn.Report.Host.{Host}
use latlearn.Server.{serve_start, serve_outer}
use latlearn.Server.Handlers.{serve_outer_total}
use latlearn.Server.Controls.{Control, control, dones, replies}
use latlearn.Api.{is_open}
use latlearn.Api.Queued.{Queued, has_room}
use latlearn.Api.Sent.{Sent}
use latlearn.System.{serves_outer}
use latlearn.System.Invariant.{Inv, Step-Inv, Queued-Inv}
use latlearn.System.Round.{round-channels, round-answers}
use latlearn.System.Progress.{is_stop, round-Running}
use latlearn.Client.{serve_next, turn}

-- The invariant, `serve` unfinished and no stop on its way; once initialised, there is some room.
pub record Calm (l : Latlearn) : Type 0 where
  pub inv : Inv l
  pub unfinished : l.serve_finished ≡ false
  pub no_stop : All (λ msg. is_stop msg ≡ false) l.comm_outer
  pub roomy : (l.init_completed ≡ false) ⊎ (pos 1 ≤ℤ l.cap_outer)

-- What a turn does that takes the message `msg`.
pub record Taken (l : Latlearn) (msg : CommMsg) (rest : List CommMsg) (m : Latlearn) : Type 0 where
  pub calm : Calm m
  pub queue : m.comm_outer ≡ rest
  pub completed : m.init_completed ≡ true
  pub cap_outer : m.cap_outer ≡ l.cap_outer
  pub done_chans : m.done_chans ≡ dones msg ++ l.done_chans
  pub replied : (control m).replied ≡ replies msg ++ (control l).replied

start-Calm : (l : Latlearn) → Calm l → Calm (serve_start l)
unfolding serve_start
start-Calm l c = record {
  inv = record {
    valid = c.inv.valid;
    unused = c.inv.unused;
    bounded = c.inv.bounded;
    once = c.inv.once;
    numbered = c.inv.numbered;
  };
  unfinished = c.unfinished;
  no_stop = c.no_stop;
  roomy = c.roomy;
}

module _ (h : Host) (clock : ℕ → ℤ) (l : Latlearn) (c : Calm l) where
  round-Taken :
      (m : Latlearn) (msg : CommMsg) (rest : List CommMsg)
      → l.init_completed ≡ true
      → l.serve_started ≡ true
      → l.comm_outer ≡ msg ∷ rest
      → serve_outer h clock l msg rest ≡ some m
      → Taken l msg rest m
  unfolding serve_outer
  round-Taken m msg rest done started q e =
      let stops : All (λ msg. is_stop msg ≡ false) (msg ∷ rest) =
        subst (All (λ msg. is_stop msg ≡ false)) q c.no_stop in
      let run =
        round-Running h clock l m msg rest stops.0
          (record { started = started; unfinished = c.unfinished; queue = q }) e in
      let k = round-channels h clock (record l { comm_outer = rest }) msg m e in
      let (d, r) = round-answers h clock (record l { comm_outer = rest }) msg m e in
      let cap : m.cap_outer ≡ l.cap_outer = ap (λ (c : Control). c.cap_outer) k in
      record {
        calm = record {
          inv = Step-Inv h (serves_outer clock msg rest started c.unfinished q e) c.inv;
          unfinished = run.unfinished;
          no_stop = subst (All (λ msg. is_stop msg ≡ false)) (sym run.queue) stops.1;
          roomy = elim c.roomy [
            | inl off ↦ absurd (ground arith)
            | inr some_room ↦ inr (rw cap some_room)
          ];
        };
        queue = run.queue;
        completed = ap (λ (c : Control). c.init_completed) k ∙ done;
        cap_outer = cap;
        done_chans = d;
        replied = r;
      }

module _ (h : Host) (clock : ℕ → ℤ) (l : Latlearn) (c : Calm l) where
  -- A turn, by what there is to take.
  pub turn_off : l.init_completed ≡ false → turn h clock l ≡ some l
  unfolding turn
  turn_off e = ground arith

  turn_on : l.init_completed ≡ true → turn h clock l ≡ serve_next h clock (serve_start l)
  unfolding turn
  turn_on e = ground (arith, c.unfinished)

  turn_empty : l.init_completed ≡ true → l.comm_outer ≡ [] → turn h clock l ≡ some (serve_start l)
  turn_empty e q = turn_on e ∙ (unfold serve_next serve_start in rw q refl)

  pub turn_next :
      (msg : CommMsg) (rest : List CommMsg)
      → l.init_completed ≡ true
      → l.comm_outer ≡ msg ∷ rest
      → turn h clock l ≡ serve_outer h clock (serve_start l) msg rest
  turn_next msg rest e q = turn_on e ∙ (unfold serve_next serve_start in rw q refl)

  pub turn-Taken :
      (msg : CommMsg) (rest : List CommMsg)
      → l.init_completed ≡ true
      → l.comm_outer ≡ msg ∷ rest
      → (m : Latlearn) × (turn h clock l ≡ some m) × Taken l msg rest m
  turn-Taken msg rest e q =
      let s = start-Calm l c in
      let (m, f, v) = serve_outer_total h clock (serve_start l) msg rest s.inv.valid in
      let t =
        round-Taken h clock (serve_start l) s m msg rest (unfold serve_start in e)
          (unfold serve_start in refl) (unfold serve_start in q) f in
      (
        m,
        turn_next msg rest e q ∙ f,
        record {
          calm = t.calm;
          queue = t.queue;
          completed = t.completed;
          cap_outer = unfold serve_start in t.cap_outer;
          done_chans = unfold serve_start in t.done_chans;
          replied = unfold serve_start in t.replied;
        },
      )

  pub turn-Calm : (m : Latlearn) × (turn h clock l ≡ some m) × Calm m
  turn-Calm = elim (Bool-cases l.init_completed) [
    | inr off ↦ (l, turn_off off, c)
    | inl on ↦ elim (List-cases l.comm_outer) [
      | inl q ↦ (serve_start l, turn_empty on q, start-Calm l c)
      | inr (msg, rest, q) ↦ let (m, f, t) = turn-Taken msg rest on q in (m, f, t.calm)
    ]
  ]

-- A call that sends no stop leaves latlearn calm.
pub called-Calm :
    (l m : Latlearn) (ms : List CommMsg)
    → Queued l m
    → Sent l ms m
    → All (λ msg. is_stop msg ≡ false) ms
    → Calm l
    → Calm m
called-Calm l m ms q s stops c = record {
  inv = Queued-Inv l m q c.inv;
  unfinished = kept_finished q;
  no_stop =
      subst (All (λ msg. is_stop msg ≡ false)) (sym s.queue)
        (All-append (λ msg. is_stop msg ≡ false) l.comm_outer ms c.no_stop stops);
  roomy = kept_room q c.roomy;
}
  where
    kept_finished : Queued l m → m.serve_finished ≡ false
    kept_finished (inl e) = ap (λ (x : Latlearn). x.serve_finished) e ∙ c.unfinished
    kept_finished (inr (msg, n, o, room, e, more, made)) =
        ap (λ (x : Latlearn). x.serve_finished) e ∙ c.unfinished

    kept_cap : Queued l m → m.cap_outer ≡ l.cap_outer
    kept_cap (inl e) = ap (λ (x : Latlearn). x.cap_outer) e
    kept_cap (inr (msg, n, o, room, e, more, made)) = ap (λ (x : Latlearn). x.cap_outer) e

    kept_room :
        Queued l m
        → (l.init_completed ≡ false) ⊎ (pos 1 ≤ℤ l.cap_outer)
        → (m.init_completed ≡ false) ⊎ (pos 1 ≤ℤ m.cap_outer)
    kept_room q (inl e) = inl (s.init_completed ∙ e)
    kept_room q (inr e) = inr (rw (kept_cap q) e)

-- A calm latlearn is closed or open with a queue that is full or not; a full queue has a message.
pub full-queue :
    (l : Latlearn)
    → Calm l
    → is_open l ≡ true
    → has_room l ≡ false
    → (msg : CommMsg) × (rest : List CommMsg) × (l.comm_outer ≡ msg ∷ rest)
full-queue l c o full = elim (List-cases l.comm_outer) [
  | inr q ↦ q
  | inl q ↦ elim c.roomy [ inl off ↦ absurd (ground arith) | inr room ↦ absurd (ground arith) ]
]

pub Taken-has_room :
    (l : Latlearn) (msg : CommMsg) (rest : List CommMsg) (m : Latlearn)
    → Calm l
    → l.comm_outer ≡ msg ∷ rest
    → Taken l msg rest m
    → has_room m ≡ true
Taken-has_room l msg rest m c q t =
    let fewer : length l.comm_outer ≡ suc (length m.comm_outer) =
      ap length q ∙ ap (λ (ms : List CommMsg). suc (length ms)) (sym t.queue) in
    ground (arith, c.inv.bounded, t.cap_outer)
