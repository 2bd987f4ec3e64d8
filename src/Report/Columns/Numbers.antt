-- ===== src/Report/Columns/Numbers.antt =====
-- The width of the texts of numbers, for the columns of the report.
use mathlib.Core.List.{reverse, reverse-cons}
use latlearn.Common.{
  All, ◌%◌, ℕ, zero, suc, ◌+◌, ◌*◌, ◌/◌, ◌^◌, ◌≤◌, ◌<◌, ◌≡◌, refl, Bytes, [], ◌∷◌, arith, eqb, ltb,
  pos, length, All-append, Bool-cases, inl, inr, false,
}
use latlearn.Report.Text.{rune_count, rev_digits}
use latlearn.Report.Row.{comma}
use latlearn.Report.Number.{number_grouped}
use latlearn.Report.Number.Groups.{
  rev_grouped, rev_grouped_small, rev_grouped_large, number_grouped-rev_grouped, rd_end, rd_step,
}
use latlearn.Report.Number.Sign.{length-reverse}
use latlearn.Report.Columns.{IsIn, NoBar}

pub rune_count-le : (s : Bytes) → rune_count s ≤ length s
unfolding rune_count
rune_count-le [] = omega arith
rune_count-le (c ∷ s) = ground (arith, rune_count-le s)

-- What holds of a comma and of the digits holds of the bytes of a number.
module _ (P : ℕ → Type 0) (of_comma : P b',') (of_digit : (d : ℕ) → d < 10 → P (b'0' + d)) where
  All-reverse : (s : Bytes) → All P s → All P (reverse s)
  All-reverse [] h = tt
  All-reverse (c ∷ s) h =
      rw (reverse-cons c s) (All-append P (reverse s) (c ∷ []) (All-reverse s h.1) (h.0, tt))

  rev_digits-All : (f n : ℕ) → All P (rev_digits f n)
  unfolding rev_digits
  rev_digits-All zero n = tt
  rev_digits-All (suc f) n = elim (Bool-cases (ltb n 10)) [
    | inl one ↦ rw one (of_digit n (ground arith), tt)
    | inr more ↦ rw more (of_digit (n % 10) (omega arith), rev_digits-All f (n / 10))
  ]

  rev_grouped-All : (f n : ℕ) → All P (rev_grouped f n b',')
  rev_grouped-All zero n = unfold rev_grouped in tt
  rev_grouped-All (suc f) n = elim (Bool-cases (ltb n 1000)) [
    | inl small ↦ rw (rev_grouped_small f n b',' (ground arith)) (rev_digits-All (suc n) n)
    | inr large ↦ rw (rev_grouped_large f n b',' (ground arith)) (
      of_digit (n % 10) (omega arith),
      (
        of_digit (n / 10 % 10) (omega arith),
        (of_digit (n / 100 % 10) (omega arith), (of_comma, rev_grouped-All f (n / 1000))),
      ),
    )
  ]

  pub number-All : (n : ℕ) → All P (number_grouped (pos n) comma)
  number-All n =
      rw (number_grouped-rev_grouped n b',')
        (All-reverse (rev_grouped (suc n) n b',') (rev_grouped-All (suc n) n))

pub number-NoBar : (n : ℕ) → NoBar (number_grouped (pos n) comma)
number-NoBar n = number-All (λ c. eqb c b'|' ≡ false) refl (λ d h. ground arith) n

-- Up to three digits.
length-rev_digits_small : (n : ℕ) → n < 1000 → length (rev_digits (suc n) n) ≤ 3
length-rev_digits_small n h = elim (Bool-cases (ltb n 10)) [
  | inl one ↦ rw (rd_end n (ground arith)) (omega arith)
  | inr more ↦ elim (Bool-cases (ltb n 100)) [
    | inl two ↦ rw (rd_step n (ground arith), rd_end (n / 10) (ground arith)) (omega arith)
    | inr three ↦
        rw
          (
            rd_step n (ground arith),
            rd_step (n / 10) (ground arith),
            rd_end (n / 10 / 10) (ground arith),
          )
          (omega arith)
  ]
]

-- A thousand to the power of `g`.
unfoldable thousands : ℕ → ℕ
thousands zero = 1
thousands (suc g) = 1000 * thousands g

-- With `g` groups of digits there are `g - 1` separators.
length-rev_grouped :
    (g f n c : ℕ) → n < thousands (suc g) → n < f → length (rev_grouped f n c) ≤ 4 * g + 3
unfolding thousands
length-rev_grouped g zero n c h k = elim k [ ]
length-rev_grouped zero (suc f) n c h k =
    rw (rev_grouped_small f n c (omega arith)) (length-rev_digits_small n (omega arith))
length-rev_grouped (suc g) (suc f) n c h k = elim (Bool-cases (ltb n 1000)) [
  | inl small ↦
      rw (rev_grouped_small f n c (ground arith))
        (omega (arith, length-rev_digits_small n (ground arith)))
  | inr large ↦
      let rest = length-rev_grouped g f (n / 1000) c (omega arith) (ground arith) in
      rw (rev_grouped_large f n c (ground arith)) (omega arith)
]

-- A number below a thousand to the power `g + 1` takes at most `4 g + 3` characters.
number-IsIn : (g n : ℕ) → n < thousands (suc g) → IsIn (4 * g + 3) (number_grouped (pos n) comma)
number-IsIn g n h = (short, number-NoBar n)
  where
    short : rune_count (number_grouped (pos n) comma) ≤ 4 * g + 3
    short = rw (number_grouped-rev_grouped n b',') (
        omega (
          arith,
          rune_count-le (reverse (rev_grouped (suc n) n b',')),
          length-reverse (rev_grouped (suc n) n b','),
          length-rev_grouped g (suc n) n b',' h (omega arith),
        ))

-- A time below 10^12 ns, and a count below 10^9.
pub time-IsIn : (n : ℕ) → n < 10 ^ 12 → IsIn 15 (number_grouped (pos n) comma)
unfolding thousands
time-IsIn n h = number-IsIn 3 n h

pub weight-IsIn : (n : ℕ) → n < 10 ^ 9 → IsIn 11 (number_grouped (pos n) comma)
unfolding thousands
weight-IsIn n h = number-IsIn 2 n h
