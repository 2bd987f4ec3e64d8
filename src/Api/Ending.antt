-- ===== src/Api/Ending.antt =====
-- `A` and `A2`: a sample ends once, and its message holds what the caller measured.
use latlearn.Common.{
  ap, pos, negsuc, zero, suc, codes, ◌≡◌, refl, ◌∙◌, inl, inr, ℤ, Bytes, Bool, true, false, [], ◌∷◌,
  ◌++◌, append-nil, append_assoc, ◌==◌, arith, Bool-cases, Option, none, some,
}
use latlearn.State.{Latlearn}
use latlearn.Span.{SpanSampleUnderway, after}
use latlearn.Api.{is_open, after_and_submit, ssu_a, ssu_a2, end_variant}
use latlearn.Api.Queued.{after_and_submit-cases, submit_sent, send_room, has_room, sample_msg}

-- The two ways to end a sample: `A`, and `A2` with a variant.
abbrev pub end_sample :
    Option Bytes → Latlearn → SpanSampleUnderway → ℤ → Option (Latlearn × SpanSampleUnderway × Bool)
end_sample none l ssu now = ssu_a l ssu now
end_sample (some variant) l ssu now = ssu_a2 l ssu variant now

after-ended : (ssu : SpanSampleUnderway) (now : ℤ) → (after ssu now).ended ≡ ssu.ended
unfolding after
after-ended ssu now = ground arith

submit-ended :
    (l : Latlearn) (ssu : SpanSampleUnderway) (now : ℤ) (m : Latlearn) (ssu' : SpanSampleUnderway)
    (ok : Bool)
    → ssu.ended ≡ true
    → after_and_submit l ssu now ≡ some (m, ssu', ok)
    → ssu'.ended ≡ true
submit-ended l ssu now m ssu' ok d e = elim (after_and_submit-cases l ssu now m ssu' ok e) [
  | inl c ↦ rw (c.2) d
  | inr c ↦ rw (c.3) (after-ended ssu now ∙ d)
]

end-ended :
    (how : Option Bytes) (l : Latlearn) (ssu : SpanSampleUnderway) (now : ℤ) (m : Latlearn)
    (ssu' : SpanSampleUnderway) (ok : Bool)
    → end_sample how l ssu now ≡ some (m, ssu', ok)
    → ssu'.ended ≡ true
unfolding ssu_a ssu_a2
end-ended none l ssu now m ssu' ok e = elim (Bool-cases ssu.ended) [
  | inl d ↦ ground arith
  | inr n ↦ submit-ended l (record ssu { ended = true }) now m ssu' ok refl (ground arith)
]
end-ended (some variant) l ssu now m ssu' ok e = elim (Bool-cases ssu.ended) [
  | inl d ↦ ground arith
  | inr n ↦
      submit-ended l (record ssu { ended = true; variant = end_variant ssu.variant variant }) now m
        ssu' ok refl (ground arith)
]

pub end_again :
    (how : Option Bytes) (l : Latlearn) (ssu : SpanSampleUnderway) (now : ℤ)
    → ssu.ended ≡ true
    → end_sample how l ssu now ≡ some (l, ssu, false)
unfolding ssu_a ssu_a2
end_again none l ssu now d = ground arith
end_again (some variant) l ssu now d = ground arith

-- A sample that has been ended, by `A` or `A2` and whatever it returned, is not ended again: each
-- later `A` or `A2` on it returns false at once and changes neither latlearn nor the sample.
pub end_twice :
    (first second : Option Bytes) (l l' k : Latlearn) (ssu ssu' : SpanSampleUnderway)
    (now later : ℤ) (ok : Bool)
    → end_sample first l ssu now ≡ some (l', ssu', ok)
    → end_sample second k ssu' later ≡ some (k, ssu', false)
end_twice first second l l' k ssu ssu' now later ok e =
    end_again second k ssu' later (end-ended first l ssu now l' ssu' ok e)

-- The variant of a sample that ends: that of `A`, or what `A2` adds to it.
abbrev pub ended_variant : Option Bytes → Bytes → Bytes
ended_variant none begun = begun
ended_variant (some variant) [] = variant
ended_variant (some []) (b ∷ begun) = b ∷ begun
ended_variant (some (c ∷ variant)) (b ∷ begun) = (b ∷ begun) ++ b',' ∷ c ∷ variant

abbrev pub ended : Option Bytes → SpanSampleUnderway → SpanSampleUnderway
ended how ssu = record ssu { ended = true; variant = ended_variant how ssu.variant }

pub end_variant-ended :
    (begun variant : Bytes) → end_variant begun variant ≡ ended_variant (some variant) begun
unfolding end_variant ◌==◌
end_variant-ended [] variant = refl
end_variant-ended (b ∷ begun) [] = append-nil (b ∷ begun)
end_variant-ended (b ∷ begun) (c ∷ variant) = append_assoc (b ∷ begun) (b',' ∷ []) (c ∷ variant)

pub end_sample-after :
    (how : Option Bytes) (l : Latlearn) (ssu : SpanSampleUnderway) (now : ℤ)
    → ssu.ended ≡ false
    → is_open l ≡ true
    → has_room l ≡ true
    → let done = after (ended how ssu) now in
      end_sample how l ssu now
      ≡ some (record l { comm_outer = l.comm_outer ++ sample_msg done ∷ [] }, done, true)
unfolding ssu_a ssu_a2
end_sample-after none l ssu now fresh open_ room =
    rw fresh (submit_sent l (record ssu { ended = true }) now open_ (send_room l _ room))
end_sample-after (some variant) l ssu now fresh open_ room =
    rw (fresh, end_variant-ended ssu.variant variant)
      (submit_sent l (ended (some variant) ssu) now open_ (send_room l _ room))

-- When a sample ends: at the time that was set for it, where there is one, else now.
abbrev pub end_time : ℤ → ℤ → ℤ
end_time (pos zero) now = now
end_time (pos (suc n)) now = pos (suc n)
end_time (negsuc n) now = negsuc n

abbrev pub completed : Option Bytes → SpanSampleUnderway → ℤ → SpanSampleUnderway
completed how ssu now = record {
  name = ssu.name;
  variant = ended_variant how ssu.variant;
  t1 = ssu.t1;
  t2 = end_time ssu.t2 now;
  ended = true;
}

after-completed :
    (how : Option Bytes) (ssu : SpanSampleUnderway) (now t2 : ℤ)
    → ssu.t2 ≡ t2
    → after (ended how ssu) now ≡ completed how ssu now
unfolding after
after-completed how ssu now (pos zero) e = rw e refl
after-completed how ssu now (pos (suc n)) e = rw e (ground arith)
after-completed how ssu now (negsuc n) e = rw e (ground arith)

-- Where latlearn is open and its queue has room, to end a sample that is not ended returns true: it
-- sends one message, of the type A, with the sample's name, the variant as it ended, the time at which the
-- sample began, and for its end the time that was set already, where there is one, or else the present
-- one. The sample is left with these times and that variant, and the rest of latlearn as it was.
pub end_sample_sent :
    (how : Option Bytes) (l : Latlearn) (ssu : SpanSampleUnderway) (now : ℤ)
    → ssu.ended ≡ false
    → is_open l ≡ true
    → has_room l ≡ true
    → end_sample how l ssu now
      ≡ some (
        record l {
          comm_outer =
              l.comm_outer
              ++ record {
                ttype = codes "A";
                params = [];
                name = ssu.name;
                variant = ended_variant how ssu.variant;
                t1 = ssu.t1;
                t2 = end_time ssu.t2 now;
                done = none;
                reply_chan = none;
              }
                ∷ [];
        },
        record {
          name = ssu.name;
          variant = ended_variant how ssu.variant;
          t1 = ssu.t1;
          t2 = end_time ssu.t2 now;
          ended = true;
        },
        true,
      )
end_sample_sent how l ssu now fresh open_ room =
    end_sample-after how l ssu now fresh open_ room
    ∙ ap (λ done. some (record l { comm_outer = l.comm_outer ++ sample_msg done ∷ [] }, done, true))
        (after-completed how ssu now ssu.t2 refl)
