-- ===== src/Api/Queued.antt =====
-- What a call does to the state: nothing, or one more message at the end of `comm_outer`.
use latlearn.Common.{
  ℕ, suc, ◌≤◌, ◌<◌, ◌≡◌, ◌⊎◌, inl, inr, ℤ, pos, Bytes, Bool, true, false, List, [], ◌∷◌, ◌++◌,
  codes, arith, Bool-cases, Option-cases, Option, none, some, length,
}
use latlearn.Common.Int.{ltb_ℤ}
use latlearn.State.{Latlearn, CommMsg}
use latlearn.Span.{SpanSampleUnderway, after}
use latlearn.Api.{
  is_open, new_msg, send, after_and_submit, ssu_a, ssu_a2, end_variant, request, report2,
  benchmarks, call_values, stop,
}

-- A channel that has been made, where the first `n` have been.
abbrev pub Made : ℕ → Option ℕ → Type 0
Made n none = Unit
Made n (some chan) = chan < n

-- The channels that a message names have been made.
abbrev pub IsMade : ℕ → CommMsg → Type 0
IsMade n msg = Made n msg.done × Made n msg.reply_chan

abbrev pub enqueued : Latlearn → CommMsg → ℕ → Latlearn
enqueued l msg n = record l { comm_outer = l.comm_outer ++ msg ∷ []; next_chan = n }

abbrev pub has_room : Latlearn → Bool
has_room l = ltb_ℤ (pos (length l.comm_outer)) l.cap_outer

abbrev pub Queued : Latlearn → Latlearn → Type 0
Queued l m =
    (m ≡ l)
    ⊎ ((msg : CommMsg) × (n : ℕ) × (is_open l ≡ true)
        × (has_room l ≡ true)
        × (m ≡ enqueued l msg n)
        × (l.next_chan ≤ n)
        × IsMade n msg)

pub send-some :
    (l : Latlearn) (msg : CommMsg) {m : Latlearn}
    → send l msg ≡ some m
    → (has_room l ≡ true) × (m ≡ record l { comm_outer = l.comm_outer ++ msg ∷ [] })
unfolding send
send-some l msg {m} e = elim (Bool-cases (has_room l)) [
  | inl r ↦ (r, ground arith)
  | inr r ↦ absurd (ground arith)
]

pub send_room :
    (l : Latlearn) (msg : CommMsg)
    → has_room l ≡ true
    → send l msg ≡ some (record l { comm_outer = l.comm_outer ++ msg ∷ [] })
unfolding send
send_room l msg r = ground arith

-- The message of a sample that ends.
abbrev pub sample_msg : SpanSampleUnderway → CommMsg
sample_msg ssu = record (new_msg (codes "A")) {
  name = ssu.name;
  variant = ssu.variant;
  t1 = ssu.t1;
  t2 = ssu.t2;
}

module _ (l : Latlearn) (ssu : SpanSampleUnderway) (now : ℤ) where
  pub submit_closed : is_open l ≡ false → after_and_submit l ssu now ≡ some (l, ssu, false)
  unfolding after_and_submit
  submit_closed e = ground arith

  submit_full :
      is_open l ≡ true
      → send l (sample_msg (after ssu now)) ≡ none
      → after_and_submit l ssu now ≡ none
  unfolding after_and_submit
  submit_full e f = ground arith

  pub submit_sent :
      {m : Latlearn}
      → is_open l ≡ true
      → send l (sample_msg (after ssu now)) ≡ some m
      → after_and_submit l ssu now ≡ some (m, after ssu now, true)
  unfolding after_and_submit
  submit_sent e f = ground arith

  -- The state after a call that does not wait, with its result.
  pub after_and_submit-cases :
      (m : Latlearn) (ssu' : SpanSampleUnderway) (ok : Bool)
      → after_and_submit l ssu now ≡ some (m, ssu', ok)
      → ((is_open l ≡ false) × (m ≡ l) × (ssu' ≡ ssu) × (ok ≡ false))
        ⊎ ((is_open l ≡ true)
            × (has_room l ≡ true)
            × (m ≡ enqueued l (sample_msg (after ssu now)) l.next_chan)
            × (ssu' ≡ after ssu now)
            × (ok ≡ true))
  after_and_submit-cases m ssu' ok e = elim (Bool-cases (is_open l)) [
    | inr shut ↦ inl (
      shut,
      ground (arith, submit_closed shut),
      ground (arith, submit_closed shut),
      ground (arith, submit_closed shut),
    )
    | inl o ↦ elim (Option-cases (send l (sample_msg (after ssu now)))) [
      | inl f ↦ absurd (ground (arith, submit_full o f))
      | inr (m', f) ↦
          let g = send-some l (sample_msg (after ssu now)) f in
          inr (
            o,
            g.0,
            ground (arith, submit_sent o f, g.1),
            ground (arith, submit_sent o f),
            ground (arith, submit_sent o f),
          )
    ]
  ]

after_and_submit-Queued :
    (l : Latlearn) (ssu : SpanSampleUnderway) (now : ℤ) (m : Latlearn) (ssu' : SpanSampleUnderway)
    (ok : Bool)
    → after_and_submit l ssu now ≡ some (m, ssu', ok)
    → Queued l m
after_and_submit-Queued l ssu now m ssu' ok e =
    elim (after_and_submit-cases l ssu now m ssu' ok e) [
      | inl c ↦ inl c.1
      | inr (o, room, sent, left, on) ↦
          inr (sample_msg (after ssu now), l.next_chan, o, room, sent, omega arith, (tt, tt))
    ]

pub ssu_a-Queued :
    (l : Latlearn) (ssu : SpanSampleUnderway) (now : ℤ) (m : Latlearn) (ssu' : SpanSampleUnderway)
    (ok : Bool)
    → ssu_a l ssu now ≡ some (m, ssu', ok)
    → Queued l m
unfolding ssu_a
ssu_a-Queued l ssu now m ssu' ok e = elim (Bool-cases ssu.ended) [
  | inl done ↦ inl (ground arith)
  | inr open_ ↦ after_and_submit-Queued l (record ssu { ended = true }) now m ssu' ok (ground arith)
]

pub ssu_a2-Queued :
    (l : Latlearn) (ssu : SpanSampleUnderway) (variant : Bytes) (now : ℤ) (m : Latlearn)
    (ssu' : SpanSampleUnderway) (ok : Bool)
    → ssu_a2 l ssu variant now ≡ some (m, ssu', ok)
    → Queued l m
unfolding ssu_a2
ssu_a2-Queued l ssu variant now m ssu' ok e = elim (Bool-cases ssu.ended) [
  | inl done ↦ inl (ground arith)
  | inr open_ ↦
      after_and_submit-Queued l
        (record ssu { ended = true; variant = end_variant ssu.variant variant }) now m ssu' ok
        (ground arith)
]

-- A message names no channel but that for its answer.
abbrev pub AsksAt : (ℕ → CommMsg) → Type 0
AsksAt msg = (chan : ℕ) → IsMade (suc chan) (msg chan)

module _ (l : Latlearn) (msg : ℕ → CommMsg) where
  abbrev pub asking : Latlearn
  asking = record l { next_chan = suc l.next_chan }

  pub request_closed : is_open l ≡ false → request l msg ≡ some (l, none)
  unfolding request
  request_closed e = ground arith

  pub request_full : is_open l ≡ true → send asking (msg l.next_chan) ≡ none → request l msg ≡ none
  unfolding request
  request_full e f = ground arith

  pub request_sent :
      (m : Latlearn)
      → is_open l ≡ true
      → send asking (msg l.next_chan) ≡ some m
      → request l msg ≡ some (m, some l.next_chan)
  unfolding request
  request_sent m e f = ground arith

  pub request-Queued :
      (m : Latlearn) (chan : Option ℕ) → AsksAt msg → request l msg ≡ some (m, chan) → Queued l m
  request-Queued m chan at e = elim (Bool-cases (is_open l)) [
    | inr shut ↦ inl (ground (arith, request_closed shut))
    | inl o ↦ elim (Option-cases (send asking (msg l.next_chan))) [
      | inl f ↦ absurd (ground (arith, request_full o f))
      | inr (m', f) ↦
          let g = send-some asking (msg l.next_chan) f in
          inr (
            msg l.next_chan,
            suc l.next_chan,
            o,
            g.0,
            ground (arith, request_sent m' o f, g.1),
            omega arith,
            at l.next_chan,
          )
    ]
  ]

pub stop-Queued : (l m : Latlearn) (ok : Bool) → stop l ≡ some (m, ok) → Queued l m
unfolding stop
stop-Queued l m ok e = elim (Bool-cases (is_open l)) [
  | inr shut ↦ inl (ground arith)
  | inl o ↦ elim (Option-cases (send l (new_msg (codes "stop")))) [
    | inl f ↦ absurd (ground arith)
    | inr (m', f) ↦
        let g = send-some l (new_msg (codes "stop")) f in
        inr
          (new_msg (codes "stop"), l.next_chan, o, g.0, ground (arith, g.1), omega arith, (tt, tt))
  ]
]

pub report2-Queued :
    (l m : Latlearn) (params : List Bytes) (chan : Option ℕ)
    → report2 l params ≡ some (m, chan)
    → Queued l m
unfolding report2
report2-Queued l m params chan e =
    request-Queued l (λ c. record (new_msg (codes "report")) { params = params; done = some c }) m
      chan (λ c. (omega arith, tt)) e

pub benchmarks-Queued :
    (l m : Latlearn) (chan : Option ℕ) → benchmarks l ≡ some (m, chan) → Queued l m
unfolding benchmarks
benchmarks-Queued l m chan e =
    request-Queued l (λ c. record (new_msg (codes "benchmarks")) { done = some c }) m chan
      (λ c. (omega arith, tt)) e

pub call_values-Queued :
    (l m : Latlearn) (span : Bytes) (chan : Option ℕ)
    → call_values l span ≡ some (m, chan)
    → Queued l m
unfolding call_values
call_values-Queued l m span chan e =
    request-Queued l (λ c. record (new_msg (codes "values")) { name = span; reply_chan = some c }) m
      chan (λ c. (tt, omega arith)) e
