-- ===== src/Common/Int.antt =====
-- Signed integers over the native numbers, and Go's int64: wrap-around, saturation, quotient.
use Prim.Native.Nat.{ℕ, zero, suc, ◌+◌, ◌-◌, ◌/◌, ◌%◌, ◌^◌, ◌≤◌, ◌<◌}
use mathlib.Core.Path.{◌≡◌, refl}
use mathlib.Core.Logic.{◌↔◌}
use mathlib.Core.Bool.{Bool, true}
use native.Mathlib.Omega.{arith}
use latlearn.Common.Tests.{ltb, leb, eqb, if◌then◌else◌}

-- `negsuc n` is -(n + 1).
pub data ℤ : Type 0 where
  pos : ℕ → ℤ
  negsuc : ℕ → ℤ

abbrev pub pos_part : ℤ → ℕ
pos_part (pos n) = n
pos_part (negsuc n) = 0

abbrev pub neg_part : ℤ → ℕ
neg_part (pos n) = 0
neg_part (negsuc n) = suc n

-- a - b, as an integer.
abbrev pub sub_ℕ : ℕ → ℕ → ℤ
sub_ℕ a b = if leb b a then pos (a - b) else negsuc (b - a - 1)

infixl 65 ◌+ℤ◌ ◌-ℤ◌
infix 50 ◌≤ℤ◌
unfoldable pub ◌+ℤ◌ : ℤ → ℤ → ℤ
a +ℤ b = sub_ℕ (pos_part a + pos_part b) (neg_part a + neg_part b)

unfoldable pub ◌-ℤ◌ : ℤ → ℤ → ℤ
a -ℤ b = sub_ℕ (pos_part a + neg_part b) (neg_part a + pos_part b)

abbrev pub ◌≤ℤ◌ : ℤ → ℤ → Type 0
a ≤ℤ b = pos_part a + neg_part b ≤ pos_part b + neg_part a

abbrev pub ltb_ℤ : ℤ → ℤ → Bool
ltb_ℤ a b = ltb (pos_part a + neg_part b) (pos_part b + neg_part a)

abbrev pub eqb_ℤ : ℤ → ℤ → Bool
eqb_ℤ a b = eqb (pos_part a + neg_part b) (pos_part b + neg_part a)

pub +ℤ_assoc : (a b c : ℤ) → a +ℤ b +ℤ c ≡ a +ℤ (b +ℤ c)
unfolding ◌+ℤ◌
+ℤ_assoc a b c = ground arith

-- One lemma for each operation lets `omega` work with the operations shut.
pub +ℤ_parts :
    (a b : ℤ)
    → pos_part (a +ℤ b) + neg_part a + neg_part b ≡ neg_part (a +ℤ b) + pos_part a + pos_part b
unfolding ◌+ℤ◌
+ℤ_parts a b = ground arith

pub -ℤ_parts :
    (a b : ℤ)
    → pos_part (a -ℤ b) + neg_part a + pos_part b ≡ neg_part (a -ℤ b) + pos_part a + neg_part b
unfolding ◌-ℤ◌
-ℤ_parts a b = ground arith

pub eq_of_parts : (a b : ℤ) → pos_part a + neg_part b ≡ pos_part b + neg_part a → a ≡ b
eq_of_parts a b h = ground arith

pub ruleset int_laws = (arith, +ℤ_parts, -ℤ_parts, eq_of_parts)

pub eqb_ℤ_iff : (a b : ℤ) → (eqb_ℤ a b ≡ true) ↔ (a ≡ b)
eqb_ℤ_iff a b = ground arith

-- 2 ^ 64 and 2 ^ 63.
abbrev pub word : ℕ
word = 2 ^ 64

abbrev pub half : ℕ
half = 2 ^ 63

abbrev pub max_int64 : ℤ
max_int64 = pos (half - 1)

abbrev pub min_int64 : ℤ
min_int64 = negsuc (half - 1)

-- The integers that an int64 holds.
abbrev pub Int64 : ℤ → Type 0
Int64 a = (min_int64 ≤ℤ a) × (a ≤ℤ max_int64)

-- The bit pattern of an integer in 64 bits, and the int64 that a bit pattern stands for.
residue : ℤ → ℕ
residue (pos n) = n % word
residue (negsuc n) = word - 1 - n % word

signed : ℕ → ℤ
signed r = if ltb r half then pos r else negsuc (word - 1 - r)

-- The result of an int64 operation with the exact value `a`.
unfoldable pub wrap64 : ℤ → ℤ
unfolding residue signed
wrap64 a = signed (residue a)

residue-lt : (a : ℤ) → residue a < word
unfolding residue
residue-lt (pos n) = omega arith
residue-lt (negsuc n) = omega arith

residue-signed : (r : ℕ) → r < word → residue (signed r) ≡ r
unfolding residue signed
residue-signed r h = ground arith

residue-+ℤ : (a b : ℤ) → residue (a +ℤ b) ≡ (residue a + residue b) % word
unfolding residue ◌+ℤ◌
residue-+ℤ (pos a) (pos b) = ground arith
residue-+ℤ (pos a) (negsuc b) = ground arith
residue-+ℤ (negsuc a) (pos b) = ground arith
residue-+ℤ (negsuc a) (negsuc b) = ground arith

-- A value in range does not wrap.
pub wrap64_id : (a : ℤ) → Int64 a → wrap64 a ≡ a
unfolding wrap64
wrap64_id (pos n) h = ground arith
wrap64_id (negsuc n) h = ground arith

pub wrap64-Int64 : (a : ℤ) → Int64 (wrap64 a)
unfolding wrap64 signed
wrap64-Int64 a = ground (arith, residue-lt a)

-- A sum wraps once, however many of its partial sums did.
pub wrap64-+ℤ : (a b : ℤ) → wrap64 (wrap64 a +ℤ b) ≡ wrap64 (a +ℤ b)
unfolding wrap64
wrap64-+ℤ a b =
    cc
      (residue-+ℤ (signed (residue a)) b, residue-signed (residue a) (residue-lt a), residue-+ℤ a b)

-- `-n`.
unfoldable pub neg_ℕ : ℕ → ℤ
neg_ℕ zero = pos 0
neg_ℕ (suc n) = negsuc n

pub neg_ℕ_parts : (n : ℕ) → (pos_part (neg_ℕ n) ≡ 0) × (neg_part (neg_ℕ n) ≡ n)
unfolding neg_ℕ
neg_ℕ_parts zero = (refl, refl)
neg_ℕ_parts (suc n) = (refl, refl)

-- Go's `a / b` on integers, which truncates towards zero. A division by zero is a panic in Go; the
-- program divides by positive numbers only.
unfoldable pub quot : ℤ → ℤ → ℤ
quot (pos a) (pos b) = pos (a / b)
quot (pos a) (negsuc b) = neg_ℕ (a / suc b)
quot (negsuc a) (pos b) = neg_ℕ (suc a / b)
quot (negsuc a) (negsuc b) = pos (suc a / suc b)
