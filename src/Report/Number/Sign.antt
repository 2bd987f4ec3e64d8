-- ===== src/Report/Number/Sign.antt =====
-- What `number_grouped` makes of the sign of a negative number, and how long its texts are.
use mathlib.Core.List.{reverse, reverse-append, reverse-cons}
use latlearn.Common.{
  ℕ, suc, ◌+◌, ◌/◌, ◌%◌, ◌≡◌, refl, ◌∙◌, pos, negsuc, Bytes, [], ◌∷◌, ◌++◌, arith, eqb,
  if◌then◌else◌, length, append_assoc, length-append, Bool-cases, inl, inr, ltb,
}
use latlearn.Report.Text.{sprint_d, split_chars, digits, rev_digits}
use latlearn.Report.Number.{group_loop, number_grouped}
use latlearn.Report.Number.Reversed.{number_grouped_lem}

group_loop-append :
    (sep : Bytes) (i : ℕ) (s t s2 : Bytes)
    → group_loop sep i (split_chars (s ++ t)) s2
      ≡ group_loop sep (i + length s) (split_chars t) (group_loop sep i (split_chars s) s2)
unfolding group_loop split_chars
group_loop-append sep i [] t s2 = ground arith
group_loop-append sep i (c ∷ s) t s2 = rw (group_loop-append sep (i + 1) s t _) (ground arith)

-- The separator before the byte at index `i`, from the right, after others.
separator : ℕ → ℕ → Bytes
separator c i = if eqb (i % 3) 0 then c ∷ [] else []

-- The byte `b`, after the digits of a number that are grouped already.
group_loop-last :
    (c i b : ℕ) (s2 : Bytes)
    → group_loop (c ∷ []) (suc i) (split_chars (b ∷ [])) s2 ≡ s2 ++ (separator c (suc i) ++ b ∷ [])
unfolding group_loop split_chars separator
group_loop-last c i b s2 = ground (arith, append_assoc s2 (c ∷ []) (b ∷ []))

pub length-reverse : (s : Bytes) → length (reverse s) ≡ length s
length-reverse [] = refl
length-reverse (c ∷ s) =
    rw (reverse-cons c s, length-append (reverse s) (c ∷ []), length-reverse s) (omega arith)

length-rev_digits : (n : ℕ) → (m : ℕ) × (length (rev_digits (suc n) n) ≡ suc m)
unfolding rev_digits
length-rev_digits n = elim (Bool-cases (ltb n 10)) [
  | inl one ↦ (0, ground arith)
  | inr more ↦ (length (rev_digits n (n / 10)), ground arith)
]

reverse-separator :
    (c i b : ℕ) (s2 : Bytes)
    → reverse (s2 ++ (separator c i ++ b ∷ [])) ≡ b ∷ (separator c i ++ reverse s2)
unfolding separator
reverse-separator c i b s2 = elim (Bool-cases (eqb (i % 3) 0)) [
  | inl at ↦ rw at (reverse-append s2 (c ∷ b ∷ []))
  | inr off ↦ rw off (reverse-append s2 (b ∷ []))
]

sign_last :
    (c m b : ℕ) (ds : Bytes)
    → length ds ≡ suc m
    → reverse (group_loop (c ∷ []) 0 (split_chars (reverse (b ∷ ds))) [])
      ≡ b
        ∷ (separator c (length ds) ++ reverse (group_loop (c ∷ []) 0 (split_chars (reverse ds)) []))
sign_last c m b ds size =
    let index : 0 + suc m ≡ suc m = omega arith in
    rw
      (
        reverse-cons b ds,
        group_loop-append (c ∷ []) 0 (reverse ds) (b ∷ []) [],
        length-reverse ds,
        size,
        index,
        group_loop-last c m b (group_loop (c ∷ []) 0 (split_chars (reverse ds)) []),
      )
      (reverse-separator c (suc m) b (group_loop (c ∷ []) 0 (split_chars (reverse ds)) []))

by_digits :
    (n : ℕ) (sep : Bytes)
    → (number_grouped (pos n) sep
        ≡ reverse (group_loop sep 0 (split_chars (reverse (digits n))) []))
      × (number_grouped (negsuc n) sep
          ≡ reverse (group_loop sep 0 (split_chars (reverse (b'-' ∷ digits (suc n)))) []))
unfolding sprint_d
by_digits n sep = (number_grouped_lem (pos n) sep, number_grouped_lem (negsuc n) sep)

-- The sign is grouped as one more digit: a negative number is printed as the sign and its magnitude, with
-- a separator of one byte between them where the magnitude has three digits, or six, and so on.
pub number_grouped-negsuc :
    (n c : ℕ)
    → number_grouped (negsuc n) (c ∷ [])
      ≡ b'-'
        ∷ ((if eqb (length (digits (suc n)) % 3) 0 then c ∷ [] else [])
            ++ number_grouped (pos (suc n)) (c ∷ []))
unfolding separator
number_grouped-negsuc n c =
    let (m, size) = length-rev_digits (suc n) in
    let some_digits : length (digits (suc n)) ≡ suc m =
      length-reverse (rev_digits (suc (suc n)) (suc n)) ∙ size in
    rw ((by_digits n (c ∷ [])).1, (by_digits (suc n) (c ∷ [])).0)
      (sign_last c m b'-' (digits (suc n)) some_digits)
