-- ===== src/Apps/App4/Loops.antt =====
-- The loops of example-app4.go: ten million spans of which a hundred are ended, some of them many
-- times, and the calls of `fn` until one panics.
use latlearn.Common.{
  ℕ, zero, suc, ◌+◌, ◌≡◌, refl, ap, subst, ◌∙◌, pos, Bytes, Bool, true, false, none, some, List, [],
  ◌∷◌, ◌++◌, codes, ltb, if◌then◌else◌, arith, append-nil,
}
use latlearn.Common.Int.{eqb_ℤ}
use latlearn.Span.{SpanSampleUnderway}
use latlearn.Client.{Program, returns, ◌>>=◌, Env, World}
use latlearn.Client.Programs.{call_b2, call_a, call_a2, for_range}
use latlearn.Client.Outcome.{
  Ready, Outcome, Any, and_then-Outcome, and_quietly-Outcome, returns-Outcome,
}
use latlearn.Client.Outcome.Samples.{Begun, end_fresh-Outcome, end_again-Outcome}
use latlearn.Client.Outcome.Calls.{b2-Outcome}
use latlearn.Client.Outcome.Loops.{
  samples_in, samples_in_alike, samples_in_parts, repeated, repeated_none, range-Outcome,
}
use latlearn.Apps.App4.{fn, fn_name, fn_variant, fn-Outcome}

abbrev pub span_name : Bytes
span_name = codes "example-app4/main/big-iloop-iter"

abbrev pub iter_variant : ℕ → Bytes
iter_variant i = if ltb i 100 then (if ltb i 10 then codes "i<10" else codes "i<100") else []

-- The loop over `j`, of which `n` rounds are left.
unfoldable pub end_redundantly : ℕ → SpanSampleUnderway → Program (Unit {0})
end_redundantly zero ll = returns tt
end_redundantly (suc n) ll = do
  r ← call_a ll
  r ← call_a2 r.0 []
  r ← call_a r.0
  r ← call_a2 r.0 (codes "this-is-irrelevant-cuz-will-be-ignored")
  end_redundantly n r.0

abbrev pub big_loop_iter : ℕ → Program (Unit {0})
big_loop_iter i = call_b2 span_name (iter_variant i) >>= λ ll.
    if ltb i 100
    then (call_a ll >>= λ r. if ltb i 10 then end_redundantly 5 r.0 else returns tt)
    else returns tt

abbrev pub big_loop : Program (Unit {0})
big_loop = for_range 10_000_000 0 big_loop_iter

-- The calls of `fn` with the ids from `id`, `n` of them at most, and whether the last one panicked.
unfoldable pub call_fns : ℕ → ℕ → ℕ → Program Bool
call_fns zero id id_last = returns false
call_fns (suc n) id id_last =
    let rest = call_fns n (id + 1) id_last in
    fn (pos id) (pos id_last) >>= λ panicked. if panicked then returns true else rest

abbrev iter_samples : ℕ → List (Bytes × Bytes)
iter_samples i = if ltb i 100 then (span_name, iter_variant i) ∷ [] else []

abbrev pub fn_sample : ℕ → ℕ → List (Bytes × Bytes)
fn_sample id_last id = (fn_name, fn_variant (pos id) (pos id_last)) ∷ []

appended_alike : {xs ys us vs : List (Bytes × Bytes)} → xs ≡ ys → us ≡ vs → xs ++ us ≡ ys ++ vs
appended_alike p q = rw (p, q) refl

big_loop_samples :
    samples_in 10_000_000 0 iter_samples
    ≡ repeated 10 ((span_name, codes "i<10") ∷ []) ++ repeated 90 ((span_name, codes "i<100") ∷ [])
big_loop_samples =
    let first = samples_in_alike 10 0 iter_samples ((span_name, codes "i<10") ∷ []) (λ i p q.
      let small : ltb i 10 ≡ true = ground arith in
      let ends : ltb i 100 ≡ true = ground arith in rw (small, ends) refl) in
    let second = samples_in_alike 90 10 iter_samples ((span_name, codes "i<100") ∷ []) (λ i p q.
      let large : ltb i 10 ≡ false = ground arith in
      let ends : ltb i 100 ≡ true = ground arith in rw (large, ends) refl) in
    let third =
      samples_in_alike 9_999_900 100 iter_samples []
        (λ i p q. let never : ltb i 100 ≡ false = ground arith in rw never refl) in
    samples_in_parts 10 9_999_990 0 iter_samples
    ∙ appended_alike first (
        samples_in_parts 90 9_999_900 10 iter_samples
        ∙ appended_alike second (third ∙ repeated_none 9_999_900)
        ∙ append-nil (repeated 90 ((span_name, codes "i<100") ∷ [])))

module _ (e : Env) where
  end_redundantly-Outcome :
      (n : ℕ) (ll : SpanSampleUnderway) (w : World)
      → Ready w.latlearn
      → ll.ended ≡ true
      → Outcome e (end_redundantly n ll) w Any []
  unfolding end_redundantly
  end_redundantly-Outcome zero ll w r done = returns-Outcome e tt w Any r tt
  end_redundantly-Outcome (suc n) ll w r done =
      and_then-Outcome e (end_again-Outcome e none ll w r done) λ a w r p.
        let done = ap (λ (x : SpanSampleUnderway × Bool). x.0.ended) p ∙ done in
        and_then-Outcome e (end_again-Outcome e (some []) a.0 w r done) λ a w r p.
          let done = ap (λ (x : SpanSampleUnderway × Bool). x.0.ended) p ∙ done in
          and_then-Outcome e (end_again-Outcome e none a.0 w r done) λ a w r p.
            let done = ap (λ (x : SpanSampleUnderway × Bool). x.0.ended) p ∙ done in
            and_then-Outcome e
              (end_again-Outcome e (some (codes "this-is-irrelevant-cuz-will-be-ignored")) a.0 w r
                done)
              λ a w r p.
                end_redundantly-Outcome n a.0 w r
                  (ap (λ (x : SpanSampleUnderway × Bool). x.0.ended) p ∙ done)

  redundant-Outcome :
      (redundant : Bool) (ll : SpanSampleUnderway) (w : World)
      → Ready w.latlearn
      → ll.ended ≡ true
      → Outcome e (if redundant then end_redundantly 5 ll else returns tt) w Any []
  redundant-Outcome true ll w r done = end_redundantly-Outcome 5 ll w r done
  redundant-Outcome false ll w r done = returns-Outcome e tt w Any r tt

  ending-Outcome :
      (ends redundant : Bool) (variant : Bytes) (ll : SpanSampleUnderway) (w : World)
      → Ready w.latlearn
      → Begun span_name variant ll
      → Outcome e
          (if ends
            then call_a ll >>= (λ r. if redundant then end_redundantly 5 r.0 else returns tt)
            else returns tt)
          w
          Any
          (if ends then (span_name, variant) ∷ [] else [])
  ending-Outcome true redundant variant ll w r b =
      and_quietly-Outcome e (end_fresh-Outcome e none ll w span_name variant r b)
        λ a w r m. redundant-Outcome redundant a.0 w r m.0
  ending-Outcome false redundant variant ll w r b = returns-Outcome e tt w Any r tt

  pub big_loop_iter-Outcome :
      (i : ℕ) (w : World) → Ready w.latlearn → Outcome e (big_loop_iter i) w Any (iter_samples i)
  big_loop_iter-Outcome i w r =
      and_then-Outcome e (b2-Outcome e span_name (iter_variant i) w r)
        λ ll w r b. ending-Outcome (ltb i 100) (ltb i 10) (iter_variant i) ll w r b

  -- Of ten million spans, the hundred are recorded that are ended, each of them once.
  pub big_loop-Outcome :
      (w : World)
      → Ready w.latlearn
      → Outcome e big_loop w Any (
          repeated 10 ((span_name, codes "i<10") ∷ [])
          ++ repeated 90 ((span_name, codes "i<100") ∷ []))
  big_loop-Outcome w r =
      subst (Outcome e big_loop w Any) big_loop_samples
        (range-Outcome e 10_000_000 0 big_loop_iter iter_samples w r big_loop_iter-Outcome)

  -- The calls of `fn` end with the last one, which panics.
  pub call_fns-Outcome :
      (n id id_last : ℕ) (w : World)
      → id + n ≡ id_last
      → Ready w.latlearn
      → Outcome e
          (call_fns (suc n) id id_last)
          w
          (λ p. p ≡ true)
          (samples_in (suc n) id (fn_sample id_last))
  unfolding call_fns samples_in
  call_fns-Outcome zero id id_last w last r =
      let same : eqb_ℤ (pos id) (pos id_last) ≡ true = ground arith in
      and_then-Outcome e (fn-Outcome e (pos id) (pos id_last) w r)
        λ panicked w r p. rw (p ∙ same) (returns-Outcome e true w (λ p. p ≡ true) r refl)
  call_fns-Outcome (suc n) id id_last w last r =
      let differ : eqb_ℤ (pos id) (pos id_last) ≡ false = ground arith in
      and_then-Outcome e (fn-Outcome e (pos id) (pos id_last) w r)
        λ panicked w r p. rw (p ∙ differ) (call_fns-Outcome n (id + 1) id_last w (omega arith) r)
