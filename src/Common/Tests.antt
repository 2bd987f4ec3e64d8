-- ===== src/Common/Tests.antt =====
-- Boolean tests on the native numbers and on texts, and the conditional. A Go string is the list
-- of its bytes.
use Prim.Native.Nat.{ℕ, compare, Ordering}
use Prim.Native.Char.{code}
use Prim.Native.String.{String}
use mathlib.Core.Path.{◌≡◌, refl, subst}
use mathlib.Core.Logic.{◌↔◌, ◌⊎◌, inl, inr}
use mathlib.Core.Bool.{Bool, true, false, ◌&&◌, ◌||◌}
use mathlib.Core.List.{List, [], ◌∷◌, ◌++◌}
use mathlib.Core.Option.{Option, none, some}
use native.Mathlib.Omega.{arith}

abbrev pub ltb : ℕ → ℕ → Bool
ltb a b = elim (compare a b) [ Ordering.lt ↦ true | _ ↦ false ]

abbrev pub leb : ℕ → ℕ → Bool
leb a b = elim (compare a b) [ Ordering.gt ↦ false | _ ↦ true ]

abbrev pub eqb : ℕ → ℕ → Bool
eqb a b = elim (compare a b) [ Ordering.eq ↦ true | _ ↦ false ]

infix 1 if◌then◌else◌
abbrev pub if◌then◌else◌ {ℓ} : {A : Type ℓ} → Bool → A → A → A
if true then x else y = x
if false then x else y = y

abbrev pub Bytes : Type 0
Bytes = List ℕ

-- The bytes of an ASCII literal.
abbrev pub codes : String → Bytes
codes String.[] = []
codes (String.◌∷◌ c s) = code c ∷ codes s

-- `s == t` on Go strings.
infix 50 ◌==◌
unfoldable pub ◌==◌ : Bytes → Bytes → Bool
[] == [] = true
[] == (c ∷ t) = false
(b ∷ s) == [] = false
(b ∷ s) == (c ∷ t) = eqb b c && s == t

pub ==_sound : (s t : Bytes) → (s == t) ≡ true → s ≡ t
unfolding ◌==◌
==_sound [] [] h = refl
==_sound [] (c ∷ t) h = ground arith
==_sound (b ∷ s) [] h = ground arith
==_sound (b ∷ s) (c ∷ t) h = ground (arith, ==_sound s t)

pub ==_refl : (s : Bytes) → (s == s) ≡ true
unfolding ◌==◌
==_refl [] = refl
==_refl (b ∷ s) = ground (arith, ==_refl s)

pub ==_iff : (s t : Bytes) → ((s == t) ≡ true) ↔ (s ≡ t)
==_iff s t = (==_sound s t, λ e. subst_test e)
  where
    subst_test : s ≡ t → (s == t) ≡ true
    subst_test e = ground (arith, ==_refl s)

-- To split on a computed value and keep the equation.
pub Bool-cases : (b : Bool) → (b ≡ true) ⊎ (b ≡ false)
Bool-cases true = inl refl
Bool-cases false = inr refl

pub Option-cases {ℓ} : {A : Type ℓ} (o : Option A) → (o ≡ none) ⊎ ((a : A) × (o ≡ some a))
Option-cases none = inl refl
Option-cases (some a) = inr (a, refl)

module _ {ℓ κ} {A : Type ℓ} (P : A → Type κ) where
  abbrev pub All : List A → Type κ
  All [] = Unit
  All (x ∷ xs) = P x × All xs

  pub All-append : (xs ys : List A) → All xs → All ys → All (xs ++ ys)
  All-append [] ys hx hy = hy
  All-append (x ∷ xs) ys hx hy = (hx.0, All-append xs ys hx.1 hy)

pub All-weaker {ℓ κ μ} :
    {A : Type ℓ} (P : A → Type κ) (Q : A → Type μ) (xs : List A)
    → ((x : A) → P x → Q x)
    → All P xs
    → All Q xs
All-weaker P Q [] f ps = tt
All-weaker P Q (x ∷ xs) f (p, ps) = (f x p, All-weaker P Q xs f ps)

-- `a` is an entry of the list.
abbrev pub Member : {A : Type 0} → A → List A → Type 0
Member a [] = ⊥
Member a (x ∷ xs) = (x ≡ a) ⊎ Member a xs

pub All-Member {ℓ} :
    {A : Type 0} (P : A → Type ℓ) (a : A) (xs : List A) → All P xs → Member a xs → P a
All-Member P a [] all m = absurd m
All-Member P a (x ∷ xs) (first, rest) (inl same) = subst P same first
All-Member P a (x ∷ xs) (first, rest) (inr later) = All-Member P a xs rest later

-- `s` is an entry of the list of strings.
unfoldable pub mem : Bytes → List Bytes → Bool
mem s [] = false
mem s (t ∷ ts) = t == s || mem s ts

pub mem-append : (s : Bytes) (ts us : List Bytes) → mem s (ts ++ us) ≡ (mem s ts || mem s us)
unfolding mem
mem-append s [] us = refl
mem-append s (t ∷ ts) us = ground (arith, mem-append s ts us)

abbrev pub is_some {ℓ} : {A : Type ℓ} → Option A → Bool
is_some none = false
is_some (some a) = true
