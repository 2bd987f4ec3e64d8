-- ===== src/Client/Waits.antt =====
-- A calm latlearn keeps no program waiting: `perform` returns for every call but a stop, and leaves it
-- calm.
use latlearn.Common.{
  ℕ, zero, suc, ◌<◌, ◌≡◌, refl, ◌∙◌, inl, inr, true, Option, none, some, List, [], ◌∷◌, ◌++◌, arith,
  Bool-cases, Option-cases, length,
}
use latlearn.State.{Latlearn, CommMsg}
use latlearn.Api.{is_open}
use latlearn.Api.Queued.{has_room}
use latlearn.Api.Fits.{Fits, Returns}
use latlearn.Client.{Env, turn, take_turns, with_room, await}
use latlearn.Client.Calm.{Calm, Taken, turn-Calm, turn-Taken, full-queue, Taken-has_room}

-- The outcome of something that returns a state: it returns, and leaves latlearn calm.
abbrev pub Stays : {A : Type 0} → Option (A × Latlearn) → Type 0
Stays {A} o = (a : A) × (m : Latlearn) × (o ≡ some (a, m)) × Calm m

module _ (e : Env) (tick : ℕ) where
  pub take_turns-Calm :
      (n : ℕ) (l : Latlearn) → Calm l → (m : Latlearn) × (take_turns e tick n l ≡ some m) × Calm m
  unfolding take_turns
  take_turns-Calm zero l c = (l, refl, c)
  take_turns-Calm (suc n) l c =
      let (k, s, d) = turn-Calm e.host (e.serve_clock tick n) l c in
      let (m, t, f) = take_turns-Calm n k d in (m, rw (s, take_turns) t, f)

  -- A call that returns wherever there is no need to wait returns, after a turn if need be.
  module _ {A : Type 0} (f : Latlearn → Option A) (P : A → Type 0)
      (returns_a : (l : Latlearn) → Fits l → Returns (f l))
      (sound : (l : Latlearn) (a : A) → f l ≡ some a → Calm l → P a) where
    with_room_at_once : (l : Latlearn) (a : A) → f l ≡ some a → with_room e tick f l ≡ some a
    unfolding with_room
    with_room_at_once l a q = rw (q, with_room) refl

    with_room_later :
        (l m : Latlearn) (a : A)
        → f l ≡ none
        → turn e.host (e.serve_clock tick 0) l ≡ some m
        → f m ≡ some a
        → with_room e tick f l ≡ some a
    unfolding with_room
    with_room_later l m a q t r = rw (q, t, with_room) r

    with_room-Fits :
        (l : Latlearn) → Calm l → Fits l → (a : A) × (with_room e tick f l ≡ some a) × P a
    with_room-Fits l c fits =
        let (a, q) = returns_a l fits in (a, with_room_at_once l a q, sound l a q c)

    pub with_room_returns :
        (l : Latlearn) → Calm l → (a : A) × (with_room e tick f l ≡ some a) × P a
    with_room_returns l c = elim (Bool-cases (is_open l)) [
      | inr shut ↦ with_room-Fits l c (inl shut)
      | inl open_ ↦ elim (Bool-cases (has_room l)) [
        | inl room ↦ with_room-Fits l c (inr room)
        | inr full ↦ elim (Option-cases (f l)) [
          | inr (a, q) ↦ (a, with_room_at_once l a q, sound l a q c)
          | inl q ↦
              let (msg, rest, head) = full-queue l c open_ full in
              let (m, t, taken) =
                turn-Taken e.host (e.serve_clock tick 0) l c msg rest (ground arith) head in
              let (a, r) = returns_a m (inr (Taken-has_room l msg rest m c head taken)) in
              (a, with_room_later l m a q t r, sound m a r taken.calm)
        ]
      ]
    ]

  -- To wait for the answer to a message that the queue holds.
  module _ {A : Type 0} (answer : Latlearn → Option A) (P : CommMsg → Type 0)
      (answers : (l m : Latlearn) (msg : CommMsg) (rest : List CommMsg)
        → P msg
        → Taken l msg rest m
        → Returns (answer m)) where
    -- It returns what was read off some state, and leaves latlearn calm.
    abbrev Awaited : Option (A × Latlearn) → Type 0
    Awaited o =
        (a : A) × (m : Latlearn) × (o ≡ some (a, m)) × Calm m × (k : Latlearn) × (answer k ≡ some a)

    await_now :
        (n : ℕ) (l : Latlearn) (a : A) → answer l ≡ some a → await e tick answer n l ≡ some (a, l)
    unfolding await
    await_now zero l a q = rw (q, await) refl
    await_now (suc n) l a q = rw (q, await) refl

    await-turn :
        (n : ℕ) (l m : Latlearn)
        → answer l ≡ none
        → turn e.host (e.serve_clock tick n) l ≡ some m
        → await e tick answer (suc n) l ≡ await e tick answer n m
    unfolding await
    await-turn n l m q t = rw (q, t, await) refl

    pub await_returns :
        (n : ℕ) (l : Latlearn) (before : List CommMsg) (msg : CommMsg)
        → Calm l
        → l.init_completed ≡ true
        → l.comm_outer ≡ before ++ msg ∷ []
        → P msg
        → length before < n
        → Awaited (await e tick answer n l)
    await_returns zero l before msg c on q p few = elim few [ ]
    await_returns (suc n) l [] msg c on q p few = elim (Option-cases (answer l)) [
      | inr (a, r) ↦ (a, l, await_now (suc n) l a r, c, l, r)
      | inl r ↦
          let (m, t, taken) = turn-Taken e.host (e.serve_clock tick n) l c msg [] on q in
          let (a, s) = answers l m msg [] p taken in
          (a, m, await-turn n l m r t ∙ await_now n m a s, taken.calm, m, s)
    ]
    await_returns (suc n) l (x ∷ before) msg c on q p few = elim (Option-cases (answer l)) [
      | inr (a, r) ↦ (a, l, await_now (suc n) l a r, c, l, r)
      | inl r ↦
          let (m, t, taken) =
            turn-Taken e.host (e.serve_clock tick n) l c x (before ++ msg ∷ []) on q in
          let (a, k, s, d, at, found) =
            await_returns n m before msg taken.calm taken.completed taken.queue p (omega arith) in
          (a, k, await-turn n l m r t ∙ s, d, at, found)
    ]
