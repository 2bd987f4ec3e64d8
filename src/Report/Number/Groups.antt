-- ===== src/Report/Number/Groups.antt =====
-- `number_grouped` against a description by thousands.
use mathlib.Core.List.{reverse, reverse-reverse}
use latlearn.Common.{
  ℕ, zero, suc, ◌+◌, ◌/◌, ◌%◌, ◌≤◌, ◌<◌, ◌≡◌, ◌≢◌, refl, sym, ap, ◌∙◌, pos, Bytes, [], ◌∷◌, ◌++◌,
  arith, eqb, ltb, if◌then◌else◌, append_assoc, Bool-cases, inl, inr,
}
use latlearn.Report.Text.{sprint_d, split_chars, rev_digits, rev_digits_fuel}
use latlearn.Report.Number.{group_loop, number_grouped}
use latlearn.Report.Number.Reversed.{number_grouped_lem}

-- The separator before the digit at index `i`, counted from the right.
abbrev lead : ℕ → ℕ → Bytes
lead c i = if eqb i 0 then [] else c ∷ []

group_one :
    (c i d : ℕ) (ds s2 : Bytes)
    → i % 3 ≡ 0
    → group_loop (c ∷ []) i (split_chars (d ∷ ds)) s2
      ≡ group_loop (c ∷ []) (i + 1) (split_chars ds) (s2 ++ (lead c i ++ d ∷ []))
unfolding group_loop split_chars
group_one c i d ds s2 h =
    ap (group_loop (c ∷ []) (i + 1) (split_chars ds))
      (ground (arith, append_assoc s2 (c ∷ []) (d ∷ [])))

group_next :
    (c i d : ℕ) (ds s2 : Bytes)
    → i % 3 ≢ 0
    → group_loop (c ∷ []) i (split_chars (d ∷ ds)) s2
      ≡ group_loop (c ∷ []) (i + 1) (split_chars ds) (s2 ++ d ∷ [])
unfolding group_loop split_chars
group_next c i d ds s2 h = ground arith

group_end : (c i : ℕ) (s2 : Bytes) → group_loop (c ∷ []) i (split_chars []) s2 ≡ s2
unfolding group_loop split_chars
group_end c i s2 = refl

group_three :
    (c i a b d : ℕ) (ds s2 : Bytes)
    → i % 3 ≡ 0
    → group_loop (c ∷ []) i (split_chars (a ∷ b ∷ d ∷ ds)) s2
      ≡ group_loop (c ∷ []) (i + 1 + 1 + 1) (split_chars ds) (s2 ++ (lead c i ++ (a ∷ b ∷ d ∷ [])))
group_three c i a b d ds s2 h =
    rw
      (
        group_one c i a (b ∷ d ∷ ds) s2 h,
        group_next c (i + 1) b (d ∷ ds) (s2 ++ (lead c i ++ a ∷ [])) (omega arith),
        group_next c (i + 1 + 1) d ds (s2 ++ (lead c i ++ a ∷ []) ++ b ∷ []) (omega arith),
      )
      (ap (group_loop (c ∷ []) (i + 1 + 1 + 1) (split_chars ds)) (simp append_assoc))

-- The grouped digits of a number from the right, by thousands.
unfoldable pub rev_grouped : ℕ → ℕ → ℕ → Bytes
rev_grouped zero n c = []
rev_grouped (suc fuel) n c =
    let rest = rev_grouped fuel (n / 1000) c in
    if ltb n 1000
    then rev_digits (suc n) n
    else (b'0' + n % 10) ∷ (b'0' + n / 10 % 10) ∷ (b'0' + n / 100 % 10) ∷ c ∷ rest

pub rd_end : (n : ℕ) → n < 10 → rev_digits (suc n) n ≡ (b'0' + n) ∷ []
unfolding rev_digits
rd_end n h = ground arith

pub rd_step :
    (n : ℕ) → 10 ≤ n → rev_digits (suc n) n ≡ (b'0' + n % 10) ∷ rev_digits (suc (n / 10)) (n / 10)
unfolding rev_digits
rd_step n h = ground (arith, rev_digits_fuel n (suc (n / 10)) (n / 10))

digits_large :
    (n : ℕ)
    → 1000 ≤ n
    → rev_digits (suc n) n
      ≡ (b'0' + n % 10)
        ∷ (b'0' + n / 10 % 10)
        ∷ (b'0' + n / 100 % 10)
        ∷ rev_digits (suc (n / 1000)) (n / 1000)
digits_large n h =
    let e1 : n / 10 / 10 ≡ n / 100 = omega arith in
    let e2 : n / 10 / 10 / 10 ≡ n / 1000 = omega arith in
    rw (
      rd_step n (omega arith),
      rd_step (n / 10) (omega arith),
      rd_step (n / 10 / 10) (omega arith),
      e2,
      e1,
    )

-- Up to three digits follow one another with no separator between them.
group_small :
    (c i n : ℕ) (s2 : Bytes)
    → i % 3 ≡ 0
    → n < 1000
    → group_loop (c ∷ []) i (split_chars (rev_digits (suc n) n)) s2
      ≡ s2 ++ (lead c i ++ rev_digits (suc n) n)
group_small c i n s2 h small = elim (Bool-cases (ltb n 10)) [
  | inl one ↦ rw (rd_end n (ground arith), group_one c i (b'0' + n) [] s2 h, group_end)
  | inr more ↦ elim (Bool-cases (ltb n 100)) [
    | inl two ↦
        rw
          (
            rd_step n (ground arith),
            rd_end (n / 10) (ground arith),
            group_one c i (b'0' + n % 10) ((b'0' + n / 10) ∷ []) s2 h,
            group_next c (i + 1) (b'0' + n / 10) [] (s2 ++ (lead c i ++ (b'0' + n % 10) ∷ []))
                (omega arith),
            group_end,
          )
          (simp append_assoc)
    | inr three ↦ rw (
      rd_step n (ground arith),
      rd_step (n / 10) (ground arith),
      rd_end (n / 10 / 10) (ground arith),
      group_three c i (b'0' + n % 10) (b'0' + n / 10 % 10) (b'0' + n / 10 / 10) [] s2 h,
      group_end,
    )
  ]
]

lead_next : (c i : ℕ) → i % 3 ≡ 0 → lead c (i + 1 + 1 + 1) ≡ c ∷ []
lead_next c i h = ground arith

pub rev_grouped_small : (f n c : ℕ) → n < 1000 → rev_grouped (suc f) n c ≡ rev_digits (suc n) n
unfolding rev_grouped
rev_grouped_small f n c h = ground arith

pub rev_grouped_large :
    (f n c : ℕ)
    → 1000 ≤ n
    → rev_grouped (suc f) n c
      ≡ (b'0' + n % 10)
        ∷ (b'0' + n / 10 % 10)
        ∷ (b'0' + n / 100 % 10)
        ∷ c
        ∷ rev_grouped f (n / 1000) c
unfolding rev_grouped
rev_grouped_large f n c h = ground arith

group_loop-rev_grouped :
    (f c i n : ℕ) (s2 : Bytes)
    → i % 3 ≡ 0
    → n < f
    → group_loop (c ∷ []) i (split_chars (rev_digits (suc n) n)) s2
      ≡ s2 ++ (lead c i ++ rev_grouped f n c)
group_loop-rev_grouped zero c i n s2 h enough = elim enough [ ]
group_loop-rev_grouped (suc f) c i n s2 h enough = elim (Bool-cases (ltb n 1000)) [
  | inl small ↦
      group_small c i n s2 h (ground arith)
      ∙ ap (λ t. s2 ++ (lead c i ++ t)) (sym (rev_grouped_small f n c (ground arith)))
  | inr large ↦
      rw
        (
          digits_large n (ground arith),
          group_three c i (b'0' + n % 10) (b'0' + n / 10 % 10) (b'0' + n / 100 % 10) _ s2 h,
          group_loop-rev_grouped f c (i + 1 + 1 + 1) (n / 1000)
              (s2
                ++ (lead c i
                    ++ (b'0' + n % 10) ∷ (b'0' + n / 10 % 10) ∷ (b'0' + n / 100 % 10) ∷ []))
              (omega arith) (ground arith),
        )
        (rw (lead_next c i h, rev_grouped_large f n c (ground arith)) (simp append_assoc))
]

-- For a natural number and a separator of one byte.
pub number_grouped-rev_grouped :
    (n c : ℕ) → number_grouped (pos n) (c ∷ []) ≡ reverse (rev_grouped (suc n) n c)
number_grouped-rev_grouped n c =
    number_grouped_lem (pos n) (c ∷ [])
    ∙ ap reverse (by_loop (sprint_d (pos n)) (unfold sprint_d in refl))
  where
    by_loop :
        (s : Bytes)
        → s ≡ reverse (rev_digits (suc n) n)
        → group_loop (c ∷ []) 0 (split_chars (reverse s)) [] ≡ rev_grouped (suc n) n c
    by_loop s e =
        rw (e, reverse-reverse (rev_digits (suc n) n))
          (group_loop-rev_grouped (suc n) c 0 n [] (omega arith) (omega arith))
