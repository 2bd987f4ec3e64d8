-- ===== src/Report/Number/Thousands.antt =====
-- What `number_grouped` prints: thousands, and the number itself when it is read back.
use mathlib.Core.List.{reverse, reverse-append, reverse-cons}
use latlearn.Common.{
  ℕ, zero, suc, ◌+◌, ◌-◌, ◌*◌, ◌/◌, ◌%◌, ◌≤◌, ◌<◌, ◌≡◌, refl, sym, ap, ◌∙◌, pos, Bytes, [], ◌∷◌,
  ◌++◌, arith, eqb, ltb, if◌then◌else◌, Bool-cases, inl, inr,
}
use latlearn.Report.Text.{rev_digits, digits}
use latlearn.Report.Number.{number_grouped}
use latlearn.Report.Number.Groups.{
  rev_grouped, rev_grouped_small, rev_grouped_large, number_grouped-rev_grouped, rd_end, rd_step,
}

-- Three digits of a number below 1000.
abbrev pub three_digits : ℕ → Bytes
three_digits m = (b'0' + m / 100) ∷ (b'0' + m / 10 % 10) ∷ (b'0' + m % 10) ∷ []

-- A number below 1000 by its digits; else the thousands, the separator and three digits.
unfoldable pub grouped : ℕ → ℕ → ℕ → Bytes
grouped zero n c = []
grouped (suc fuel) n c =
    let rest = grouped fuel (n / 1000) c in
    if ltb n 1000 then digits n else rest ++ c ∷ three_digits (n % 1000)

reverse_four :
    (a b d c : ℕ) (s : Bytes) → reverse (a ∷ b ∷ d ∷ c ∷ s) ≡ reverse s ++ c ∷ d ∷ b ∷ a ∷ []
reverse_four a b d c s = reverse-append (a ∷ b ∷ d ∷ c ∷ []) s

three_last :
    (n : ℕ)
    → (b'0' + n / 100 % 10) ∷ (b'0' + n / 10 % 10) ∷ (b'0' + n % 10) ∷ [] ≡ three_digits (n % 1000)
three_last n = ground arith

grouped_large :
    (f n c : ℕ)
    → 1000 ≤ n
    → grouped (suc f) n c ≡ grouped f (n / 1000) c ++ c ∷ three_digits (n % 1000)
unfolding grouped
grouped_large f n c h = ground arith

reverse-rev_grouped : (f n c : ℕ) → reverse (rev_grouped f n c) ≡ grouped f n c
reverse-rev_grouped zero n c = unfold rev_grouped grouped in refl
reverse-rev_grouped (suc f) n c = elim (Bool-cases (ltb n 1000)) [
  | inl small ↦ rw (rev_grouped_small f n c (ground arith)) (unfold grouped in rw small)
  | inr large ↦
      rw (rev_grouped_large f n c (ground arith), reverse_four, reverse-rev_grouped f (n / 1000) c)
        (ap (λ t. grouped f (n / 1000) c ++ c ∷ t) (three_last n)
          ∙ sym (grouped_large f n c (ground arith)))
]

-- A natural number is printed, with a separator of one byte, by thousands: below 1000 as its digits
-- alone, else `n / 1000` in the same way, the separator, and the three last digits.
pub number_grouped-grouped : (n c : ℕ) → number_grouped (pos n) (c ∷ []) ≡ grouped (suc n) n c
number_grouped-grouped n c = number_grouped-rev_grouped n c ∙ reverse-rev_grouped (suc n) n c

-- To read a number, passing over the separator `c`.
unfoldable pub read_number : ℕ → ℕ → Bytes → ℕ
read_number c acc [] = acc
read_number c acc (b ∷ s) = read_number c (if eqb b c then acc else acc * 10 + (b - b'0')) s

read_rev : ℕ → Bytes → ℕ
read_rev c [] = 0
read_rev c (b ∷ s) = let v = read_rev c s in if eqb b c then v else v * 10 + (b - b'0')

read_number-append :
    (c acc : ℕ) (s t : Bytes) → read_number c acc (s ++ t) ≡ read_number c (read_number c acc s) t
unfolding read_number
read_number-append c acc [] t = refl
read_number-append c acc (b ∷ s) t =
    read_number-append c (if eqb b c then acc else acc * 10 + (b - b'0')) s t

read_number-reverse : (c : ℕ) (s : Bytes) → read_number c 0 (reverse s) ≡ read_rev c s
read_number-reverse c [] = unfold read_number read_rev in refl
read_number-reverse c (b ∷ s) =
    rw (reverse-cons b s, read_number-append c 0 (reverse s) (b ∷ []), read_number-reverse c s)
      (unfold read_number read_rev in refl)

read_rev-rev_digits : (f c n : ℕ) → c < b'0' → n < f → read_rev c (rev_digits (suc n) n) ≡ n
unfolding read_rev
read_rev-rev_digits zero c n h k = elim k [ ]
read_rev-rev_digits (suc f) c n h k = elim (Bool-cases (ltb n 10)) [
  | inl one ↦ rw (rd_end n (ground arith)) (ground arith)
  | inr more ↦
      rw (rd_step n (ground arith))
        (ground (arith, read_rev-rev_digits f c (n / 10) h (ground arith)))
]

read_rev-rev_grouped : (f c n : ℕ) → c < b'0' → n < f → read_rev c (rev_grouped f n c) ≡ n
unfolding read_rev
read_rev-rev_grouped zero c n h k = elim k [ ]
read_rev-rev_grouped (suc f) c n h k = elim (Bool-cases (ltb n 1000)) [
  | inl small ↦
      rw (rev_grouped_small f n c (ground arith)) (read_rev-rev_digits (suc n) c n h (omega arith))
  | inr large ↦
      rw (rev_grouped_large f n c (ground arith))
        (ground (arith, read_rev-rev_grouped f c (n / 1000) h (ground arith)))
]

-- Read without its separators, a printed natural number is the number, for every separator byte below the
-- digits, such as a comma or a space.
pub read_number-number_grouped :
    (n c : ℕ) → c < b'0' → read_number c 0 (number_grouped (pos n) (c ∷ [])) ≡ n
read_number-number_grouped n c h =
    rw (number_grouped-rev_grouped n c, read_number-reverse c (rev_grouped (suc n) n c))
      (read_rev-rev_grouped (suc n) c n h (omega arith))
