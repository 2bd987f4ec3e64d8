-- ===== src/Client/Outcome/Samples.antt =====
-- `A` and `A2` in a program: they end a sample or, of one that has ended, do nothing.
use latlearn.Common.{
  suc, ◌≡◌, refl, ap, ◌∙◌, subst, inl, inr, ℤ, Bytes, Bool, true, false, Option, none, some, [],
  ◌∷◌, ◌++◌, arith,
}
use mathlib.Core.List.{map}
use latlearn.State.{Latlearn}
use latlearn.Span.{SpanSampleUnderway, after}
use latlearn.Api.{is_open, ssu_a, ssu_a2, end_variant}
use latlearn.Api.Queued.{after_and_submit-cases}
use latlearn.Api.Sent.{ssu_a-Sent, ssu_a2-Sent}
use latlearn.Api.Fits.{end_sample-Returns}
use latlearn.Api.Ending.{end_sample, ended, ended_variant, end_variant-ended, end_again}
use latlearn.Client.{end_span, take_turns, call, Env, World, with_room, ended_by, perform}
use latlearn.Client.Calm.{Calm}
use latlearn.Client.Waits.{take_turns-Calm, with_room_returns}
use latlearn.Client.Total.{performed, ended_of, end_sample-Calm}
use latlearn.Client.Outcome.{Ready, key_of, Outcome, perform_on, performed-Outcome}

-- A sample that has begun and not ended.
pub record Begun (span with_variant : Bytes) (ssu : SpanSampleUnderway) : Type 0 where
  pub name : ssu.name ≡ span
  pub variant : ssu.variant ≡ with_variant
  pub fresh : ssu.ended ≡ false

-- A sample that `A` or `A2` has ended, and that was measured.
abbrev pub Measured : SpanSampleUnderway × Bool → Type 0
Measured (ssu, ok) = (ssu.ended ≡ true) × (ok ≡ true)

after_same :
    (ssu : SpanSampleUnderway) (t : ℤ)
    → ((after ssu t).name ≡ ssu.name)
      × ((after ssu t).variant ≡ ssu.variant)
      × ((after ssu t).ended ≡ ssu.ended)
unfolding after
after_same ssu t = (ground arith, ground arith, ground arith)

end_sample_fresh :
    (how : Option Bytes) (l : Latlearn) (ssu : SpanSampleUnderway) (t : ℤ) (m : Latlearn)
    (ssu' : SpanSampleUnderway) (ok : Bool)
    → ssu.ended ≡ false
    → is_open l ≡ true
    → end_sample how l ssu t ≡ some (m, ssu', ok)
    → (ssu' ≡ after (ended how ssu) t) × (ok ≡ true)
unfolding ssu_a ssu_a2
end_sample_fresh none l ssu t m ssu' ok fresh on q =
    elim (after_and_submit-cases l (record ssu { ended = true }) t m ssu' ok (ground arith)) [
      | inl (shut, s, k, was_off) ↦ absurd (ground arith)
      | inr (o, room, sent, left, was_on) ↦ (left, was_on)
    ]
end_sample_fresh (some v) l ssu t m ssu' ok fresh on q =
    elim (after_and_submit-cases l
      (record ssu { ended = true; variant = end_variant ssu.variant v }) t m ssu' ok
      (ground arith)) [
        | inl (shut, s, k, was_off) ↦ absurd (ground arith)
        | inr (o, room, sent, left, was_on) ↦ (
          subst (λ x. ssu' ≡ after (record ssu { ended = true; variant = x }) t)
              (end_variant-ended ssu.variant v) left,
          was_on,
        )
      ]

end_sample_completed :
    (how : Option Bytes) (l : Latlearn) (ssu : SpanSampleUnderway) (t : ℤ) (m : Latlearn)
    (ssu' : SpanSampleUnderway) (ok : Bool)
    → end_sample how l ssu t ≡ some (m, ssu', ok)
    → m.init_completed ≡ l.init_completed
end_sample_completed none l ssu t m ssu' ok q = (ssu_a-Sent l ssu t m ssu' ok q).init_completed
end_sample_completed (some v) l ssu t m ssu' ok q =
    (ssu_a2-Sent l ssu v t m ssu' ok q).init_completed

-- How a sample that had not ended ends, latlearn being initialised.
abbrev Fresh : Option Bytes → SpanSampleUnderway → ℤ → Latlearn × SpanSampleUnderway × Bool → Type 0
Fresh how ssu t (m, ssu', ok) =
    Calm m × (m.init_completed ≡ true → (ssu' ≡ after (ended how ssu) t) × (ok ≡ true))

-- How a sample ends that has ended before.
abbrev Again : SpanSampleUnderway → Latlearn × SpanSampleUnderway × Bool → Type 0
Again ssu (m, ssu', ok) = Calm m × (ssu' ≡ ssu) × (ok ≡ false)

module _ (e : Env) (how : Option Bytes) (ssu : SpanSampleUnderway) where
  Fresh-sound :
      (t : ℤ)
      → ssu.ended ≡ false
      → (l : Latlearn) (r : Latlearn × SpanSampleUnderway × Bool) → end_sample how l ssu t ≡ some r
      → Calm l
      → Fresh how ssu t r
  Fresh-sound t fresh l (m, ssu', ok) q c = (
    end_sample-Calm how ssu t l (m, ssu', ok) q c,
    λ on.
        end_sample_fresh how l ssu t m ssu' ok fresh
          (ground (arith, c.unfinished, end_sample_completed how l ssu t m ssu' ok q)) q,
  )

  Again-sound :
      (t : ℤ)
      → ssu.ended ≡ true
      → (l : Latlearn) (r : Latlearn × SpanSampleUnderway × Bool) → end_sample how l ssu t ≡ some r
      → Calm l
      → Again ssu r
  Again-sound t done l (m, ssu', ok) q c = (
    end_sample-Calm how ssu t l (m, ssu', ok) q c,
    ground (arith, end_again how l ssu t done),
    ground (arith, end_again how l ssu t done),
  )

  perform_ended :
      (w : World) (l m : Latlearn) (ssu' : SpanSampleUnderway) (ok : Bool)
      → take_turns e w.tick (e.turns w.tick) w.latlearn ≡ some l
      → with_room e w.tick (λ l. end_sample how l ssu (e.clock w.tick)) l ≡ some (m, ssu', ok)
      → perform e (end_span how ssu) w
        ≡ some (
          (ssu', ok),
          record {
            latlearn = m;
            tick = suc w.tick;
            ended = w.ended ++ ended_by (end_span how ssu) (ssu', ok);
          },
        )
  perform_ended w l m ssu' ok q r =
      performed e (end_span how ssu) w l m (ssu', ok) q (ended_of e w.tick how ssu l m ssu' ok r)

  measured_key :
      (name variant : Bytes) (t : ℤ) (ssu' : SpanSampleUnderway) (ok : Bool)
      → Begun name variant ssu
      → ssu' ≡ after (ended how ssu) t
      → ok ≡ true
      → map key_of (ended_by (end_span how ssu) (ssu', ok)) ≡ (name, ended_variant how variant) ∷ []
  measured_key name variant t ssu' ok b left was_on =
      let (n, v, d) = after_same (ended how ssu) t in
      rw (was_on, left, n, v, b.name, b.variant) refl

  -- A sample that is underway ends, and is recorded under its span and its variant as it ended.
  pub end_fresh-Outcome :
      (w : World) (name variant : Bytes)
      → Ready w.latlearn
      → Begun name variant ssu
      → Outcome e (call (end_span how ssu)) w Measured ((name, ended_variant how variant) ∷ [])
  end_fresh-Outcome w name variant ready b =
      let t = e.clock w.tick in
      let (l, q, c) = take_turns-Calm e w.tick (e.turns w.tick) w.latlearn ready.0 in
      let ((m, ssu', ok), r, outcome) =
        with_room_returns e w.tick (λ l. end_sample how l ssu t) (Fresh how ssu t)
          (λ l. end_sample-Returns how l ssu t) (Fresh-sound t b.fresh) l c in
      let (d, how_ended) = outcome in
      let p = perform_ended w l m ssu' ok q r in
      let on = perform_on e (end_span how ssu) w _ (ssu', ok) p ready.1 in
      let (left, was_on) = how_ended on in
      subst (Outcome e (call (end_span how ssu)) w Measured)
        (measured_key name variant t ssu' ok b left was_on)
        (performed-Outcome e (end_span how ssu) w m (ssu', ok) Measured p (d, on)
          (
            ap (λ (x : SpanSampleUnderway). x.ended) left ∙ (after_same (ended how ssu) t).2,
            was_on,
          ))

  -- A sample that has ended is not recorded again.
  pub end_again-Outcome :
      (w : World)
      → Ready w.latlearn
      → ssu.ended ≡ true
      → Outcome e (call (end_span how ssu)) w (λ r. r ≡ (ssu, false)) []
  end_again-Outcome w ready done =
      let t = e.clock w.tick in
      let (l, q, c) = take_turns-Calm e w.tick (e.turns w.tick) w.latlearn ready.0 in
      let ((m, ssu', ok), r, outcome) =
        with_room_returns e w.tick (λ l. end_sample how l ssu t) (Again ssu)
          (λ l. end_sample-Returns how l ssu t) (Again-sound t done) l c in
      let (d, same, was_off) = outcome in
      let p = perform_ended w l m ssu' ok q r in
      subst (Outcome e (call (end_span how ssu)) w (λ r. r ≡ (ssu, false))) (rw was_off refl) (
        performed-Outcome e (end_span how ssu) w m (ssu', ok) (λ r. r ≡ (ssu, false)) p
          (d, perform_on e (end_span how ssu) w _ (ssu', ok) p ready.1) (rw (same, was_off) refl))
