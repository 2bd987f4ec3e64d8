-- ===== src/Apps/App4.antt =====
-- example-app4.go: samples that end in several ways, twice or never, and a panic. A panic is a result:
-- `true` of what has panicked, after the deferred calls.
pub mod Loops
pub mod Main
use latlearn.Common.{
  suc, ◌-◌, ◌%◌, ◌≡◌, refl, subst, ◌∙◌, inl, inr, ℤ, pos, negsuc, Bytes, Bool, true, false, none,
  some, [], ◌∷◌, codes, eqb, if◌then◌else◌, arith, Bool-cases,
}
use latlearn.Common.Int.{eqb_ℤ}
use latlearn.Span.{SpanSampleUnderway}
use latlearn.Client.{Program, returns, ◌>>=◌, ◌>>◌, Env, World}
use latlearn.Client.Programs.{call_b, call_a, call_a2}
use latlearn.Client.Outcome.{
  Ready, Outcome, and_then-Outcome, and_quietly-Outcome, returns-Outcome, weaker-Outcome,
}
use latlearn.Client.Outcome.Samples.{Begun, end_fresh-Outcome, end_again-Outcome}
use latlearn.Client.Outcome.Calls.{b2-Outcome}

-- Go's `%` by 2 keeps the sign.
abbrev pub rem_2 : ℤ → ℤ
rem_2 (pos n) = pos (n % 2)
rem_2 (negsuc n) = if eqb (suc n % 2) 0 then pos 0 else negsuc 0

abbrev pub fn_name : Bytes
fn_name = codes "example-app4/fn"

abbrev pub left_by_a2 : Bytes → Bool → SpanSampleUnderway → Program (SpanSampleUnderway × Bool)
left_by_a2 variant panics ll = call_a2 ll variant >>= λ r. returns (r.0, panics)

-- The `switch` of `fn`: the sample, and whether `fn` panics.
abbrev pub fn_switch : ℤ → SpanSampleUnderway → Program (SpanSampleUnderway × Bool)
fn_switch return_case ll =
    if eqb_ℤ return_case (pos 1)
    then left_by_a2 (codes "earlyreturn") false ll
    else (if eqb_ℤ return_case (pos 2)
        then left_by_a2 (codes "panic") true ll
        else returns (ll, false))

-- The deferred `A`.
abbrev pub fn_deferred : SpanSampleUnderway × Bool → Program Bool
fn_deferred left = call_a left.0 >> returns left.1

abbrev pub return_case : ℤ → ℤ → ℤ
return_case id id_last = if eqb_ℤ id id_last then pos 2 else rem_2 id

abbrev pub fn : ℤ → ℤ → Program Bool
fn id id_last = do
  ll ← call_b fn_name
  left ← fn_switch (return_case id id_last) ll
  fn_deferred left

abbrev pub fn_variant : ℤ → ℤ → Bytes
fn_variant id id_last =
    if eqb_ℤ id id_last
    then codes "panic"
    else (if eqb_ℤ (rem_2 id) (pos 1) then codes "earlyreturn" else [])

-- The variant that `fn` gives its sample by `return_case`.
abbrev case_variant : ℤ → Bytes
case_variant c =
    if eqb_ℤ c (pos 1) then codes "earlyreturn" else (if eqb_ℤ c (pos 2) then codes "panic" else [])

rem_2_small : (id : ℤ) → eqb_ℤ (rem_2 id) (pos 2) ≡ false
rem_2_small (pos n) = ground arith
rem_2_small (negsuc n) = elim (Bool-cases (eqb (suc n % 2) 0)) [
  | inl even ↦ rw even refl
  | inr odd ↦ rw odd refl
]

case_variant_small :
    (c : ℤ)
    → eqb_ℤ c (pos 2) ≡ false
    → case_variant c ≡ (if eqb_ℤ c (pos 1) then codes "earlyreturn" else [])
case_variant_small c small = rw small refl

case_variant-return_case :
    (id id_last : ℤ) → case_variant (return_case id id_last) ≡ fn_variant id id_last
case_variant-return_case id id_last = elim (Bool-cases (eqb_ℤ id id_last)) [
  | inl last ↦ rw last refl
  | inr before ↦ rw before (case_variant_small (rem_2 id) (rem_2_small id))
]

panics-return_case : (id id_last : ℤ) → eqb_ℤ (return_case id id_last) (pos 2) ≡ eqb_ℤ id id_last
panics-return_case id id_last = elim (Bool-cases (eqb_ℤ id id_last)) [
  | inl last ↦ rw last refl
  | inr before ↦ rw before (rem_2_small id)
]

module _ (e : Env) where
  -- An ending by `A2`, and the deferred `A` that follows it.
  left_by_a2-Outcome :
      (variant : Bytes) (panics : Bool) (ll : SpanSampleUnderway) (w : World)
      → Ready w.latlearn
      → Begun fn_name [] ll
      → Outcome e
          (left_by_a2 variant panics ll >>= fn_deferred)
          w
          (λ p. p ≡ panics)
          ((fn_name, variant) ∷ [])
  left_by_a2-Outcome variant panics ll w r b =
      and_quietly-Outcome e (end_fresh-Outcome e (some variant) ll w fn_name [] r b) λ a w r m.
        and_then-Outcome e (end_again-Outcome e none a.0 w r m.0)
          λ _ w r _. returns-Outcome e panics w (λ p. p ≡ panics) r refl

  normal-Outcome :
      (ll : SpanSampleUnderway) (w : World)
      → Ready w.latlearn
      → Begun fn_name [] ll
      → Outcome e (fn_deferred (ll, false)) w (λ p. p ≡ false) ((fn_name, []) ∷ [])
  normal-Outcome ll w r b =
      and_quietly-Outcome e (end_fresh-Outcome e none ll w fn_name [] r b)
        λ _ w r _. returns-Outcome e false w (λ p. p ≡ false) r refl

  switch-Outcome :
      (c : ℤ) (ll : SpanSampleUnderway) (w : World)
      → Ready w.latlearn
      → Begun fn_name [] ll
      → Outcome e
          (fn_switch c ll >>= fn_deferred)
          w
          (λ p. p ≡ eqb_ℤ c (pos 2))
          ((fn_name, case_variant c) ∷ [])
  switch-Outcome c ll w r b = elim (Bool-cases (eqb_ℤ c (pos 1))) [
    | inl one ↦
        let two : eqb_ℤ c (pos 2) ≡ false = ground arith in
        rw (one, two) (left_by_a2-Outcome (codes "earlyreturn") false ll w r b)
    | inr other ↦ elim (Bool-cases (eqb_ℤ c (pos 2))) [
      | inl two ↦ rw (other, two) (left_by_a2-Outcome (codes "panic") true ll w r b)
      | inr none_of_them ↦ rw (other, none_of_them) (normal-Outcome ll w r b)
    ]
  ]

  -- From a calm and initialised latlearn, `fn` panics exactly where its two arguments are the same, and
  -- whichever way it is left, it has ended one sample: with the variant panic or earlyreturn, or with
  -- no variant where it returns at its end.
  pub fn-Outcome :
      (id id_last : ℤ) (w : World)
      → Ready w.latlearn
      → Outcome e
          (fn id id_last)
          w
          (λ p. p ≡ eqb_ℤ id id_last)
          ((fn_name, fn_variant id id_last) ∷ [])
  fn-Outcome id id_last w r =
      subst (λ v. Outcome e (fn id id_last) w (λ p. p ≡ eqb_ℤ id id_last) ((fn_name, v) ∷ []))
        (case_variant-return_case id id_last)
        (weaker-Outcome e (fn id id_last) w (λ p. p ≡ eqb_ℤ (return_case id id_last) (pos 2)) _ _
          (λ p q. q ∙ panics-return_case id id_last)
          (and_then-Outcome e (b2-Outcome e fn_name [] w r)
            λ ll w r b. switch-Outcome (return_case id id_last) ll w r b))
