-- ===== src/Client/Turns.antt =====
-- The turns of `serve` in a run, and the waits of a call: no sample is sent in them.
use latlearn.Common.{
  List-cases, List, [], ℕ, zero, suc, ◌≡◌, refl, ap, subst, inl, inr, ℤ, true, false, not, ◌&&◌,
  Option, none, some, arith, Bool-cases, Option-cases, length,
}
use latlearn.State.{Latlearn}
use latlearn.Report.Host.{Host}
use latlearn.Server.{serve_start}
use latlearn.System.{serve_starts, serves_outer}
use latlearn.Registry.{Sample}
use latlearn.System.Order.{sent_by}
use latlearn.Client.Sends.{Sends, Sends-same, Sends-one, Sends-later}
use latlearn.Client.{Env, serve_next, turn, take_turns, with_room, await, ask}

-- The start of `serve`, unless it has started.
start-Sends : (h : Host) (l : Latlearn) → l.init_completed ≡ true → Sends h l (serve_start l) []
start-Sends h l c = elim (Bool-cases l.serve_started) [
  | inl e ↦ Sends-same h l (serve_start l) (again e)
  | inr e ↦ Sends-one h l (serve_start l) (serve_starts c e) [] (unfold sent_by in refl)
]
  where
    again : l.serve_started ≡ true → l ≡ serve_start l
    again e = unfold serve_start in ap (λ b. record l { serve_started = b }) e

serve_next-Sends :
    (h : Host) (clock : ℕ → ℤ) (l m : Latlearn)
    → l.serve_started ≡ true
    → l.serve_finished ≡ false
    → serve_next h clock l ≡ some m
    → Sends h l m []
unfolding serve_next
serve_next-Sends h clock l m started unfinished e = elim (List-cases l.comm_outer) [
  | inl q ↦ Sends-same h l m (ground arith)
  | inr (msg, rest, q) ↦
      Sends-one h l m (serves_outer clock msg rest started unfinished q (ground arith)) []
        (unfold sent_by in refl)
]

pub turn-Sends :
    (h : Host) (clock : ℕ → ℤ) (l m : Latlearn) → turn h clock l ≡ some m → Sends h l m []
unfolding turn
turn-Sends h clock l m e = elim (Bool-cases (l.init_completed && not l.serve_finished)) [
  | inl c ↦ Sends-later h (start-Sends h l (ground arith)) (
      serve_next-Sends h clock (serve_start l) m (unfold serve_start in refl)
        (unfold serve_start in ground arith) (ground arith))
  | inr c ↦ Sends-same h l m (ground arith)
]

module _ (e : Env) (tick : ℕ) where
  pub take_turns-Sends :
      (n : ℕ) (l m : Latlearn) → take_turns e tick n l ≡ some m → Sends e.host l m []
  unfolding take_turns
  take_turns-Sends zero l m q = Sends-same e.host l m (ground arith)
  take_turns-Sends (suc n) l m q = elim (Option-cases (turn e.host (e.serve_clock tick n) l)) [
    | inl s ↦ absurd (ground arith)
    | inr (k, s) ↦
        Sends-later e.host (turn-Sends e.host (e.serve_clock tick n) l k s)
          (take_turns-Sends n k m (ground arith))
  ]

  module _ {A : Type 0} (state : A → Latlearn) (xs : A → List Sample) (f : Latlearn → Option A)
      (sound : (l : Latlearn) (a : A) → f l ≡ some a → Sends e.host l (state a) (xs a)) where
    pub with_room-Sends :
        (l : Latlearn) (a : A) → with_room e tick f l ≡ some a → Sends e.host l (state a) (xs a)
    unfolding with_room
    with_room-Sends l a q = elim (Option-cases (f l)) [
      | inr (b, s) ↦ sound l a (ground arith)
      | inl s ↦ elim (Option-cases (turn e.host (e.serve_clock tick 0) l)) [
        | inl t ↦ absurd (ground arith)
        | inr (k, t) ↦
            Sends-later e.host (turn-Sends e.host (e.serve_clock tick 0) l k t)
              (sound k a (ground arith))
      ]
    ]

  await-Sends :
      {A : Type 0} (answer : Latlearn → Option A) (n : ℕ) (l m : Latlearn) (a : A)
      → await e tick answer n l ≡ some (a, m)
      → Sends e.host l m []
  unfolding await
  await-Sends answer zero l m a q = elim (Option-cases (answer l)) [
    | inl s ↦ absurd (ground arith)
    | inr (b, s) ↦ Sends-same e.host l m (ground arith)
  ]
  await-Sends answer (suc n) l m a q = elim (Option-cases (answer l)) [
    | inr (b, s) ↦ Sends-same e.host l m (ground arith)
    | inl s ↦ elim (Option-cases (turn e.host (e.serve_clock tick n) l)) [
      | inl t ↦ absurd (ground arith)
      | inr (k, t) ↦
          Sends-later e.host (turn-Sends e.host (e.serve_clock tick n) l k t)
            (await-Sends answer n k m a (ground arith))
    ]
  ]

  pub ask-Sends :
      {A : Type 0} (request : Latlearn → Option (Latlearn × Option ℕ))
      (answer : ℕ → Latlearn → Option A) (refused : A)
      → ((l : Latlearn) (r : Latlearn × Option ℕ) → request l ≡ some r → Sends e.host l r.0 [])
      → (l m : Latlearn) (a : A) → ask e tick request answer refused l ≡ some (a, m)
      → Sends e.host l m []
  unfolding ask
  ask-Sends request answer refused sound l m a q =
      elim (Option-cases (with_room e tick request l)) [
        | inl s ↦ absurd (ground arith)
        | inr ((k, none), s) ↦
            let same : k ≡ m = ground arith in
            subst (λ k. Sends e.host l k []) same
              (with_room-Sends (λ r. r.0) (λ r. []) request sound l (k, none) s)
        | inr ((k, some chan), s) ↦
            Sends-later e.host
              (with_room-Sends (λ r. r.0) (λ r. []) request sound l (k, some chan) s)
              (await-Sends (answer chan) (length k.comm_outer) k m a (ground arith))
      ]
