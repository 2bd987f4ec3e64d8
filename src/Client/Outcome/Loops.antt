-- ===== src/Client/Outcome/Loops.antt =====
-- Initialisation, loops, and the self-sample.
use latlearn.Common.{
  ℕ, zero, suc, ◌+◌, ◌≤◌, ◌<◌, ◌≡◌, refl, sym, ap, ◌∙◌, subst, inl, ℤ, Bytes, Bool, true, false,
  if◌then◌else◌, none, List, [], ◌∷◌, ◌++◌, append_assoc, arith,
}
use latlearn.Common.Int.{pos_part}
use latlearn.Registry.{overhead_span}
use latlearn.Span.{SpanSampleUnderway}
use latlearn.System.Invariant.{process_start-Inv}
use latlearn.System.Completed.{init2_done}
use latlearn.Api.{init2}
use latlearn.Client.{
  init_spans, is_init_completed, begin_self_sample, end_self_sample, Program, returns, call, ◌>>=◌,
  ◌>>◌, Env, World, attempt,
}
use latlearn.Client.Calm.{Calm}
use latlearn.Client.Waits.{take_turns-Calm}
use latlearn.Client.Total.{performed, init2-Calm}
use latlearn.Client.Programs.{
  call_init2, call_b2, call_a, for_range, self_sample_rounds, self_sample_count, self_sample_when,
  measure_self_sample, world_start,
}
use latlearn.Client.Outcome.{
  Ready, Outcome, Any, perform_on, performed-Outcome, then-Outcome, and_then-Outcome,
  and_quietly-Outcome, returns-Outcome,
}
use latlearn.Client.Outcome.Samples.{Begun, Measured, end_fresh-Outcome}
use latlearn.Client.Outcome.Calls.{quiet-Outcome, b2-Outcome}

-- The samples of a loop that ends the samples `ks i` in its `i`th round.
unfoldable pub samples_in : ℕ → ℕ → (ℕ → List (Bytes × Bytes)) → List (Bytes × Bytes)
samples_in zero from ks = []
samples_in (suc n) from ks = ks from ++ samples_in n (from + 1) ks

unfoldable pub repeated : ℕ → List (Bytes × Bytes) → List (Bytes × Bytes)
repeated zero ks = []
repeated (suc n) ks = ks ++ repeated n ks

pub samples_in_alike :
    (n from : ℕ) (ks : ℕ → List (Bytes × Bytes)) (js : List (Bytes × Bytes))
    → ((i : ℕ) → from ≤ i → i < from + n → ks i ≡ js)
    → samples_in n from ks ≡ repeated n js
unfolding samples_in repeated
samples_in_alike zero from ks js alike = refl
samples_in_alike (suc n) from ks js alike =
    rw
      (
        alike from (omega arith) (omega arith),
        samples_in_alike n (from + 1) ks js (λ i p q. alike i (omega arith) (omega arith)),
      )
      refl

pub samples_in_parts :
    (m n from : ℕ) (ks : ℕ → List (Bytes × Bytes))
    → samples_in (m + n) from ks ≡ samples_in m from ks ++ samples_in n (from + m) ks
unfolding samples_in
samples_in_parts zero n from ks =
    let p : 0 + n ≡ n = omega arith in
    let q : from ≡ from + 0 = omega arith in
    ap (λ k. samples_in k from ks) p ∙ ap (λ i. samples_in n i ks) q
samples_in_parts (suc m) n from ks =
    let p : suc m + n ≡ suc (m + n) = omega arith in
    let q : (from + 1) + m ≡ from + suc m = omega arith in
    ap (λ k. samples_in k from ks) p
    ∙ ap (λ js. ks from ++ js)
        (samples_in_parts m n (from + 1) ks
          ∙ ap (λ i. samples_in m (from + 1) ks ++ samples_in n i ks) q)
    ∙ sym (append_assoc (ks from) (samples_in m (from + 1) ks) (samples_in n (from + suc m) ks))

pub repeated_none : (n : ℕ) → repeated n [] ≡ []
unfolding repeated
repeated_none zero = refl
repeated_none (suc n) = repeated_none n

pub process_start-Calm : Calm world_start.latlearn
process_start-Calm = record {
  inv = process_start-Inv;
  unfinished = refl;
  no_stop = tt;
  roomy = inl refl;
}

module _ (e : Env) where
  pub init-Outcome :
      (spans : List Bytes) (w : World) → Calm w.latlearn → Outcome e (call_init2 spans) w Any []
  init-Outcome spans w calm =
      let (l, q, c) = take_turns-Calm e w.tick (e.turns w.tick) w.latlearn calm in
      let t = e.clock w.tick in
      performed-Outcome e (init_spans spans) w (init2 l spans t) tt Any
        (performed e (init_spans spans) w l (init2 l spans t) tt q (unfold attempt in refl))
        (init2-Calm e.host l spans t c, init2_done l spans t c.inv.once) tt

  pub range-Outcome :
      (n from : ℕ) (body : ℕ → Program (Unit {0})) (ks : ℕ → List (Bytes × Bytes)) (w : World)
      → Ready w.latlearn
      → ((i : ℕ) (v : World) → Ready v.latlearn → Outcome e (body i) v Any (ks i))
      → Outcome e (for_range n from body) w Any (samples_in n from ks)
  unfolding for_range samples_in
  range-Outcome zero from body ks w ready each = returns-Outcome e tt w Any ready tt
  range-Outcome (suc n) from body ks w ready each =
      then-Outcome e (body from) (λ _. for_range n (from + 1) body) w Any Any (ks from)
        (samples_in n (from + 1) ks) (each from w ready)
        (λ a v r p. range-Outcome n (from + 1) body ks v r each)

  -- A loop whose rounds all end the samples `ks`.
  pub repeat-Outcome :
      (n : ℕ) (body : ℕ → Program (Unit {0})) (ks : List (Bytes × Bytes)) (w : World)
      → Ready w.latlearn
      → ((i : ℕ) (v : World) → Ready v.latlearn → Outcome e (body i) v Any ks)
      → Outcome e (for_range n 0 body) w Any (repeated n ks)
  repeat-Outcome n body ks w ready each =
      subst (Outcome e (for_range n 0 body) w Any)
        (samples_in_alike n 0 (λ _. ks) ks (λ i p q. refl))
        (range-Outcome n 0 body (λ _. ks) w ready each)

  self_sample_rounds-Outcome :
      (n : ℕ) (w : World)
      → Ready w.latlearn
      → Outcome e (self_sample_rounds n) w (λ ok. ok ≡ true) (repeated n ((overhead_span, []) ∷ []))
  unfolding self_sample_rounds repeated
  self_sample_rounds-Outcome zero w ready = returns-Outcome e true w (λ ok. ok ≡ true) ready refl
  self_sample_rounds-Outcome (suc n) w ready =
      let ks = repeated n ((overhead_span, []) ∷ []) in
      let goes_on =
        λ (r : SpanSampleUnderway × Bool). if r.1 then self_sample_rounds n else returns false in
      then-Outcome e (call_b2 overhead_span []) (λ ssu. call_a ssu >>= goes_on) w
        (Begun overhead_span []) (λ ok. ok ≡ true) [] ((overhead_span, []) ∷ ks)
        (b2-Outcome e overhead_span [] w ready)
        (λ ssu v r b.
          then-Outcome e (call_a ssu) goes_on v Measured (λ ok. ok ≡ true)
            ((overhead_span, []) ∷ []) ks (end_fresh-Outcome e none ssu v overhead_span [] r b)
            (λ a u s m. rw (m.1) (self_sample_rounds-Outcome n u s)))

  on-Outcome :
      (w : World) → Ready w.latlearn → Outcome e (call is_init_completed) w (λ b. b ≡ true) []
  on-Outcome w ready =
      let (l, q, c) = take_turns-Calm e w.tick (e.turns w.tick) w.latlearn ready.0 in
      let p = performed e is_init_completed w l l l.init_completed q (unfold attempt in refl) in
      let on = perform_on e is_init_completed w _ l.init_completed p ready.1 in
      performed-Outcome e is_init_completed w l l.init_completed (λ b. b ≡ true) p (c, on) on

  when_on-Outcome :
      (n : ℤ) (w : World)
      → Ready w.latlearn
      → Outcome e
          (self_sample_when n true)
          w
          (λ ok. ok ≡ true)
          (repeated (pos_part (self_sample_count n)) ((overhead_span, []) ∷ []))
  when_on-Outcome n w ready =
      let rounds = pos_part (self_sample_count n) in
      let ks = repeated rounds ((overhead_span, []) ∷ []) in
      and_quietly-Outcome e {f = λ ok. call (end_self_sample ok) >> returns ok} {ks = ks}
        (and_then-Outcome e (quiet-Outcome e begin_self_sample w refl ready)
          (λ a v r p. self_sample_rounds-Outcome rounds v r))
        (λ ok v r on.
          and_then-Outcome e (quiet-Outcome e (end_self_sample ok) v refl r)
            (λ a u s p. returns-Outcome e ok u (λ ok. ok ≡ true) s on))

  -- An initialised latlearn takes its self-sample: a million samples, for a negative number.
  pub measure_self_sample-Outcome :
      (n : ℤ) (w : World)
      → Ready w.latlearn
      → Outcome e
          (measure_self_sample n)
          w
          (λ ok. ok ≡ true)
          (repeated (pos_part (self_sample_count n)) ((overhead_span, []) ∷ []))
  measure_self_sample-Outcome n w ready =
      then-Outcome e (call is_init_completed) (self_sample_when n) w (λ b. b ≡ true)
        (λ ok. ok ≡ true) [] (repeated (pos_part (self_sample_count n)) ((overhead_span, []) ∷ []))
        (on-Outcome w ready) (λ b v r on. rw on (when_on-Outcome n v r))
