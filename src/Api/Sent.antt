-- ===== src/Api/Sent.antt =====
-- The messages that a call sends, by its result.
use latlearn.Common.{
  ℕ, suc, ◌≡◌, refl, sym, ap, ◌∙◌, ◌⊎◌, inl, inr, ℤ, Bytes, Bool, true, false, List, [], ◌∷◌, ◌++◌,
  codes, append-nil, arith, Bool-cases, Option-cases, Option, none, some,
}
use latlearn.State.{Latlearn, CommMsg}
use latlearn.Span.{SpanSampleUnderway, after}
use latlearn.Api.{
  is_open, new_msg, send, after_and_submit, ssu_a, ssu_a2, end_variant, request, report2,
  benchmarks, call_values, stop,
}
use latlearn.Api.Queued.{
  enqueued, sample_msg, after_and_submit-cases, send-some, asking, request_closed, request_full,
  request_sent,
}

-- From `l` to `m` the messages `ms` have been sent, and only to an initialised latlearn.
pub record Sent (l : Latlearn) (ms : List CommMsg) (m : Latlearn) : Type 0 where
  pub queue : m.comm_outer ≡ l.comm_outer ++ ms
  pub init_completed : m.init_completed ≡ l.init_completed
  pub ready : (ms ≡ []) ⊎ (l.init_completed ≡ true)

Sent-none : (l m : Latlearn) → m ≡ l → Sent l [] m
Sent-none l m e = record {
  queue = ap (λ (x : Latlearn). x.comm_outer) e ∙ sym (append-nil l.comm_outer);
  init_completed = ap (λ (x : Latlearn). x.init_completed) e;
  ready = inl refl;
}

Sent-one :
    (l m : Latlearn) (msg : CommMsg) (n : ℕ)
    → is_open l ≡ true
    → m ≡ enqueued l msg n
    → Sent l (msg ∷ []) m
Sent-one l m msg n o e = record {
  queue = ap (λ (x : Latlearn). x.comm_outer) e;
  init_completed = ap (λ (x : Latlearn). x.init_completed) e;
  ready = inr (ground arith);
}

-- What `A` and `A2` send, by their result and the sample that they leave.
abbrev pub ended_msgs : SpanSampleUnderway → Bool → List CommMsg
ended_msgs ssu false = []
ended_msgs ssu true = sample_msg ssu ∷ []

submit-Sent :
    (l : Latlearn) (ssu : SpanSampleUnderway) (now : ℤ) (m : Latlearn) (ssu' : SpanSampleUnderway)
    (ok : Bool)
    → after_and_submit l ssu now ≡ some (m, ssu', ok)
    → Sent l (ended_msgs ssu' ok) m
submit-Sent l ssu now m ssu' ok e = elim (after_and_submit-cases l ssu now m ssu' ok e) [
  | inl (shut, same, kept, off) ↦ rw off (Sent-none l m same)
  | inr (o, room, sent, left, on) ↦
      rw (on, left) (Sent-one l m (sample_msg (after ssu now)) l.next_chan o sent)
]

pub ssu_a-Sent :
    (l : Latlearn) (ssu : SpanSampleUnderway) (now : ℤ) (m : Latlearn) (ssu' : SpanSampleUnderway)
    (ok : Bool)
    → ssu_a l ssu now ≡ some (m, ssu', ok)
    → Sent l (ended_msgs ssu' ok) m
unfolding ssu_a
ssu_a-Sent l ssu now m ssu' ok e = elim (Bool-cases ssu.ended) [
  | inl done ↦ let off : ok ≡ false = ground arith in rw off (Sent-none l m (ground arith))
  | inr fresh ↦ submit-Sent l (record ssu { ended = true }) now m ssu' ok (ground arith)
]

pub ssu_a2-Sent :
    (l : Latlearn) (ssu : SpanSampleUnderway) (variant : Bytes) (now : ℤ) (m : Latlearn)
    (ssu' : SpanSampleUnderway) (ok : Bool)
    → ssu_a2 l ssu variant now ≡ some (m, ssu', ok)
    → Sent l (ended_msgs ssu' ok) m
unfolding ssu_a2
ssu_a2-Sent l ssu variant now m ssu' ok e = elim (Bool-cases ssu.ended) [
  | inl done ↦ let off : ok ≡ false = ground arith in rw off (Sent-none l m (ground arith))
  | inr fresh ↦
      submit-Sent l (record ssu { ended = true; variant = end_variant ssu.variant variant }) now m
        ssu' ok (ground arith)
]

-- What a request sends, by the channel at which its caller then waits.
abbrev pub request_msgs : (ℕ → CommMsg) → Option ℕ → List CommMsg
request_msgs msg none = []
request_msgs msg (some chan) = msg chan ∷ []

pub request-Sent :
    (l : Latlearn) (msg : ℕ → CommMsg) (m : Latlearn) (chan : Option ℕ)
    → request l msg ≡ some (m, chan)
    → Sent l (request_msgs msg chan) m
request-Sent l msg m chan e = elim (Bool-cases (is_open l)) [
  | inr shut ↦
      let off : chan ≡ none = ground (arith, request_closed l msg shut) in
      rw off (Sent-none l m (ground (arith, request_closed l msg shut)))
  | inl o ↦ elim (Option-cases (send (asking l msg) (msg l.next_chan))) [
    | inl f ↦ absurd (ground (arith, request_full l msg o f))
    | inr (m', f) ↦
        let g = send-some (asking l msg) (msg l.next_chan) f in
        let on : chan ≡ some l.next_chan = ground (arith, request_sent l msg m' o f) in
        rw on (
          Sent-one l m (msg l.next_chan) (suc l.next_chan) o
            (ground (arith, request_sent l msg m' o f, g.1)))
  ]
]

abbrev pub stop_msgs : Bool → List CommMsg
stop_msgs false = []
stop_msgs true = new_msg (codes "stop") ∷ []

pub stop-Sent : (l m : Latlearn) (ok : Bool) → stop l ≡ some (m, ok) → Sent l (stop_msgs ok) m
unfolding stop
stop-Sent l m ok e = elim (Bool-cases (is_open l)) [
  | inr shut ↦ let off : ok ≡ false = ground arith in rw off (Sent-none l m (ground arith))
  | inl o ↦ elim (Option-cases (send l (new_msg (codes "stop")))) [
    | inl f ↦ absurd (ground arith)
    | inr (m', f) ↦
        let g = send-some l (new_msg (codes "stop")) f in
        let on : ok ≡ true = ground arith in
        rw on (Sent-one l m (new_msg (codes "stop")) l.next_chan o (ground (arith, g.1)))
  ]
]

pub report2-Sent :
    (l m : Latlearn) (params : List Bytes) (chan : Option ℕ)
    → report2 l params ≡ some (m, chan)
    → Sent l
        (request_msgs
          (λ c. record (new_msg (codes "report")) { params = params; done = some c })
          chan)
        m
unfolding report2
report2-Sent l m params chan e = request-Sent l _ m chan e

pub benchmarks-Sent :
    (l m : Latlearn) (chan : Option ℕ)
    → benchmarks l ≡ some (m, chan)
    → Sent l (request_msgs (λ c. record (new_msg (codes "benchmarks")) { done = some c }) chan) m
unfolding benchmarks
benchmarks-Sent l m chan e = request-Sent l _ m chan e

pub call_values-Sent :
    (l m : Latlearn) (span : Bytes) (chan : Option ℕ)
    → call_values l span ≡ some (m, chan)
    → Sent l
        (request_msgs
          (λ c. record (new_msg (codes "values")) { name = span; reply_chan = some c })
          chan)
        m
unfolding call_values
call_values-Sent l m span chan e = request-Sent l _ m chan e
