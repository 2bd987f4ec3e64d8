-- ===== src/Report/Number/Reversed.antt =====
-- `reverse_string_array`, and `number_grouped` as one loop over the digits from the right.
use mathlib.Core.List.{reverse, reverse-append, reverse-cons}
use latlearn.Common.{
  ℕ, zero, suc, ◌≤◌, ◌<◌, ◌≡◌, refl, sym, ap, ◌∙◌, ℤ, Bytes, some, List, [], ◌∷◌, ◌++◌, arith,
  length, get_elem?, append-nil, append_assoc,
}
use latlearn.Report.Text.{sprint_d, split_chars, join_all}
use latlearn.Report.Number.{reverse_loop, reverse_string_array, group_loop, number_grouped}

abbrev take {ℓ} : {A : Type ℓ} → ℕ → List A → List A
take zero xs = []
take (suc n) [] = []
take (suc n) (x ∷ xs) = x ∷ take n xs

take-suc :
    (i : ℕ) (xs : List Bytes)
    → i < length xs
    → (x : Bytes) × (get_elem? xs i ≡ some x) × (take (suc i) xs ≡ take i xs ++ x ∷ [])
take-suc i [] h = elim h [ ]
take-suc zero (x ∷ xs) h = (x, refl, refl)
take-suc (suc i) (x ∷ xs) h = let (y, p, q) = take-suc i xs (omega arith) in (y, p, rw q)

take-length : (xs : List Bytes) → take (length xs) xs ≡ xs
take-length [] = refl
take-length (x ∷ xs) = rw (take-length xs)

reverse_step :
    (i : ℕ) (xs out : List Bytes)
    → ((o : List Bytes) → reverse_loop i xs o ≡ o ++ reverse (take i xs))
    → (x : Bytes) × (get_elem? xs i ≡ some x) × (take (suc i) xs ≡ take i xs ++ x ∷ [])
    → reverse_loop (suc i) xs out ≡ out ++ reverse (take (suc i) xs)
unfolding reverse_loop
reverse_step i xs out ih (x, p, q) =
    rw (q, reverse-append (take i xs) (x ∷ []))
      (ground (arith, ih (out ++ x ∷ []), append_assoc out (x ∷ []) (reverse (take i xs))))

reverse_loop-take :
    (i : ℕ) (xs out : List Bytes)
    → i ≤ length xs
    → reverse_loop i xs out ≡ out ++ reverse (take i xs)
unfolding reverse_loop
reverse_loop-take zero xs out h = sym (append-nil out)
reverse_loop-take (suc i) xs out h =
    reverse_step i xs out (λ o. reverse_loop-take i xs o (omega arith))
      (take-suc i xs (omega arith))

-- `reverse_string_array` is the reversal of the list.
pub reverse_string_array-reverse : (xs : List Bytes) → reverse_string_array xs ≡ reverse xs
unfolding reverse_string_array
reverse_string_array-reverse xs =
    reverse_loop-take (length xs) xs [] (omega arith) ∙ ap reverse (take-length xs)

join_all-append : (xs ys : List Bytes) → join_all (xs ++ ys) ≡ join_all xs ++ join_all ys
unfolding join_all
join_all-append [] ys = refl
join_all-append (x ∷ xs) ys =
    rw (join_all-append xs ys) (sym (append_assoc x (join_all xs) (join_all ys)))

split_chars-append : (s t : Bytes) → split_chars (s ++ t) ≡ split_chars s ++ split_chars t
unfolding split_chars
split_chars-append [] t = refl
split_chars-append (c ∷ s) t = rw (split_chars-append s t)

split_chars-reverse : (s : Bytes) → split_chars (reverse s) ≡ reverse (split_chars s)
split_chars-reverse [] = unfold split_chars in refl
split_chars-reverse (c ∷ s) =
    rw (reverse-cons c s, split_chars-append (reverse s) (c ∷ []), split_chars-reverse s)
      (unfold split_chars in sym (reverse-cons (c ∷ []) (split_chars s)))

join_all-split_chars : (s : Bytes) → join_all (split_chars s) ≡ s
unfolding join_all split_chars
join_all-split_chars [] = refl
join_all-split_chars (c ∷ s) = rw (join_all-split_chars s)

pub number_grouped_lem :
    (val : ℤ) (sep : Bytes)
    → number_grouped val sep ≡ reverse (group_loop sep 0 (split_chars (reverse (sprint_d val))) [])
number_grouped_lem val sep =
    unfold number_grouped in
    rw (
      reverse_string_array-reverse (split_chars (sprint_d val)),
      ← split_chars-reverse (sprint_d val),
      reverse_string_array-reverse,
      ← split_chars-reverse,
      join_all-split_chars,
    )
