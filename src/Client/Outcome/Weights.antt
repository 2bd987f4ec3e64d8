-- ===== src/Client/Outcome/Weights.antt =====
-- From the spans and variants of the samples that a program has ended to the weights of learners.
use latlearn.Common.{
  ℕ, zero, suc, ◌+◌, ◌≡◌, refl, Bytes, true, false, not, ◌&&◌, List, [], ◌∷◌, ◌++◌, ◌==◌, mem, All,
  All-append, arith, length, if◌then◌else◌, Bool-cases, inl, inr,
}
use mathlib.Core.List.{map}
use latlearn.Registry.{Sample, span_key_form}
use latlearn.Registry.Family.{counts_for}
use latlearn.Registry.Trace.{durations, IsApart}
use latlearn.Span.{SpanSampleUnderway}
use latlearn.Client.Sends.{sample_ended, recorded}
use latlearn.Client.Pool.Tally.{count}
use latlearn.Client.Outcome.{key_of}
use latlearn.Client.Outcome.Loops.{repeated}

-- How many of the samples count for the span or variant `k`.
unfoldable pub weight_for : Bytes → List (Bytes × Bytes) → ℕ
weight_for k [] = 0
weight_for k (key ∷ keys) = (if counts_for key.0 key.1 k then 1 else 0) + weight_for k keys

pub weight_for-append :
    (k : Bytes) (ks js : List (Bytes × Bytes))
    → weight_for k (ks ++ js) ≡ weight_for k ks + weight_for k js
unfolding weight_for
weight_for-append k [] js = omega arith
weight_for-append k (key ∷ ks) js = omega (arith, weight_for-append k ks js)

pub weight_for-repeated :
    (k : Bytes) (n : ℕ) (key : Bytes × Bytes)
    → weight_for k (repeated n (key ∷ [])) ≡ (if counts_for key.0 key.1 k then n else 0)
unfolding repeated weight_for
weight_for-repeated k zero key = elim (Bool-cases (counts_for key.0 key.1 k)) [
  | inl e ↦ rw e refl
  | inr e ↦ rw e refl
]
weight_for-repeated k (suc n) key =
    let rest = weight_for-repeated k n key in
    elim (Bool-cases (counts_for key.0 key.1 k)) [
      | inl e ↦ ground (arith, rest)
      | inr e ↦ ground (arith, rest)
    ]

length-durations-append :
    (k : Bytes) (xs ys : List Sample)
    → length (durations k (xs ++ ys)) ≡ length (durations k xs) + length (durations k ys)
unfolding durations
length-durations-append k [] ys = omega arith
length-durations-append k (x ∷ xs) ys = ground (arith, length-durations-append k xs ys)

-- The number of the samples that the statistics of `k` summarise.
pub length-durations :
    (k : Bytes) (ssus : List SpanSampleUnderway)
    → length (durations k (recorded ssus)) ≡ weight_for k (map key_of ssus)
unfolding durations weight_for
length-durations k [] = refl
length-durations k (ssu ∷ ssus) =
    let rest = length-durations k ssus in
    let parts = length-durations-append k (recorded ssus) (sample_ended ssu) in
    elim (Bool-cases (counts_for ssu.name ssu.variant k)) [
      | inl e ↦ ground (arith, parts, rest)
      | inr e ↦ ground (arith, parts, rest)
    ]

-- A span and variant of which a sample is apart.
abbrev pub IsApartKey : List Bytes → Bytes × Bytes → Type 0
IsApartKey names key =
    (mem (span_key_form key.0 []) names ≡ true)
    × ((not (key.1 == []) && mem (span_key_form key.0 key.1) names) ≡ false)

pub recorded-IsApart :
    (names : List Bytes) (ssus : List SpanSampleUnderway)
    → All (IsApartKey names) (map key_of ssus)
    → All (IsApart names) (recorded ssus)
recorded-IsApart names [] all = tt
recorded-IsApart names (ssu ∷ ssus) (first, rest) =
    All-append (IsApart names) (recorded ssus) (sample_ended ssu) (recorded-IsApart names ssus rest)
      (first, tt)

pub repeated-All :
    (P : Bytes × Bytes → Type 0) (n : ℕ) (key : Bytes × Bytes)
    → P key
    → All P (repeated n (key ∷ []))
unfolding repeated
repeated-All P zero key p = tt
repeated-All P (suc n) key p = (p, repeated-All P n key p)

==_sym : (s t : Bytes) → (s == t) ≡ (t == s)
unfolding ◌==◌
==_sym [] [] = refl
==_sym [] (c ∷ t) = refl
==_sym (b ∷ s) [] = refl
==_sym (b ∷ s) (c ∷ t) = ground (arith, ==_sym s t)

-- Without variants, the samples that count for a span are those of the span.
pub weight_for-count :
    (k : Bytes) (ks : List (Bytes × Bytes))
    → All (λ key. key.1 ≡ []) ks
    → weight_for k ks ≡ count (k, []) ks
unfolding weight_for count span_key_form ◌==◌
weight_for-count k [] all = refl
weight_for-count k ((name, variant) ∷ ks) (plain, rest) =
    let same = weight_for-count k ks rest in rw plain (ground (arith, same, ==_sym name k))
