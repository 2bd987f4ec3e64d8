-- ===== src/Api/Fits.antt =====
-- No call waits where latlearn is closed or its queue has room.
use latlearn.Common.{
  ℕ, ◌≡◌, refl, ◌⊎◌, inl, inr, ℤ, Bytes, true, false, [], ◌∷◌, ◌++◌, codes, arith, Bool-cases,
  Option, none, some,
}
use latlearn.State.{Latlearn, CommMsg}
use latlearn.Span.{SpanSampleUnderway}
use latlearn.Api.{is_open, new_msg, ssu_a, ssu_a2, end_variant, request, stop}
use latlearn.Api.Queued.{has_room, asking, send_room, request_closed, request_sent, submit_closed}
use latlearn.Api.Ending.{end_sample, end_sample-after, end_again}

-- There is no need to wait.
abbrev pub Fits : Latlearn → Type 0
Fits l = (is_open l ≡ false) ⊎ (has_room l ≡ true)

abbrev pub Returns : {A : Type 0} → Option A → Type 0
Returns {A} o = (a : A) × (o ≡ some a)

end_sample_closed :
    (how : Option Bytes) (l : Latlearn) (ssu : SpanSampleUnderway) (now : ℤ)
    → ssu.ended ≡ false
    → is_open l ≡ false
    → Returns (end_sample how l ssu now)
unfolding ssu_a ssu_a2
end_sample_closed none l ssu now fresh shut =
    ((l, record ssu { ended = true }, false), rw fresh (submit_closed l _ now shut))
end_sample_closed (some v) l ssu now fresh shut = (
  (l, record ssu { ended = true; variant = end_variant ssu.variant v }, false),
  rw fresh (submit_closed l _ now shut),
)

pub end_sample-Returns :
    (how : Option Bytes) (l : Latlearn) (ssu : SpanSampleUnderway) (now : ℤ)
    → Fits l
    → Returns (end_sample how l ssu now)
end_sample-Returns how l ssu now f = elim (Bool-cases ssu.ended) [
  | inl again ↦ (_, end_again how l ssu now again)
  | inr fresh ↦ elim (Bool-cases (is_open l)) [
    | inr shut ↦ end_sample_closed how l ssu now fresh shut
    | inl open_ ↦ elim f [
      | inl shut ↦ absurd (ground arith)
      | inr room ↦ (_, end_sample-after how l ssu now fresh open_ room)
    ]
  ]
]

pub request-Returns : (l : Latlearn) (msg : ℕ → CommMsg) → Fits l → Returns (request l msg)
request-Returns l msg f = elim (Bool-cases (is_open l)) [
  | inr shut ↦ (_, request_closed l msg shut)
  | inl open_ ↦ elim f [
    | inl shut ↦ absurd (ground arith)
    | inr room ↦ (_, request_sent l msg _ open_ (send_room (asking l msg) (msg l.next_chan) room))
  ]
]

pub stop-Returns : (l : Latlearn) → Fits l → Returns (stop l)
unfolding stop
stop-Returns l f = elim (Bool-cases (is_open l)) [
  | inr shut ↦ ((l, false), rw shut refl)
  | inl open_ ↦ elim f [
    | inl shut ↦ absurd (ground arith)
    | inr room ↦ (
      (record l { comm_outer = l.comm_outer ++ new_msg (codes "stop") ∷ [] }, true),
      rw (open_, send_room l (new_msg (codes "stop")) room) refl,
    )
  ]
]
