-- ===== src/Server/Own.antt =====
-- latlearn's own samples among all, and what they leave alone.
use latlearn.Common.{
  ◌≡◌, refl, inl, inr, Bytes, Bool, true, false, ◌&&◌, List, [], ◌∷◌, ◌++◌, codes, ◌==◌, ==_iff,
  if◌then◌else◌, arith, All, mem, mem-append, Bool-cases,
}
use mathlib.Core.List.{map}
use latlearn.Registry.{Sample, span_key_form, spans_latlearn_builtin}
use latlearn.Registry.Trace.{durations, IsApart}
use latlearn.State.{CommMsg}

-- A sample of one of latlearn's own spans.
abbrev pub is_own : Sample → Bool
is_own s = (s.variant == []) && mem s.name spans_latlearn_builtin

unfoldable pub outside : List Sample → List Sample
outside [] = []
outside (s ∷ ss) = let rest = outside ss in if is_own s then rest else s ∷ rest

-- The sample that a message brings.
unfoldable pub sample_of : CommMsg → List Sample
sample_of msg =
    if msg.ttype == codes "A"
    then record { name = msg.name; variant = msg.variant; t1 = msg.t1; t2 = msg.t2 } ∷ []
    else []

abbrev pub IsBuiltin : Bytes → Type 0
IsBuiltin n = mem n spans_latlearn_builtin ≡ true

pub outside_own :
    (ss : List Sample)
    → All (λ s. s.variant ≡ []) ss
    → All IsBuiltin (map (λ (s : Sample). s.name) ss)
    → outside ss ≡ []
unfolding outside ◌==◌
outside_own [] p a = refl
outside_own (s ∷ ss) p a = rw (p.0, a.0) (outside_own ss p.1 a.1)

pub outside-append : (xs ys : List Sample) → outside (xs ++ ys) ≡ outside xs ++ outside ys
unfolding outside
outside-append [] ys = refl
outside-append (x ∷ xs) ys = ground (arith, outside-append xs ys)

-- latlearn's own samples count for none of the application's spans.
own_counts :
    (s : Sample) (k : Bytes)
    → is_own s ≡ true
    → mem k spans_latlearn_builtin ≡ false
    → (span_key_form s.name [] == k) ≡ false
unfolding span_key_form ◌==◌
own_counts s k o b = ground (arith, ==_iff s.name k)

pub durations-outside :
    (k : Bytes) (ss : List Sample)
    → mem k spans_latlearn_builtin ≡ false
    → durations k (outside ss) ≡ durations k ss
unfolding durations outside
durations-outside k [] b = refl
durations-outside k (s ∷ ss) b = ground (arith, own_counts s k, durations-outside k ss b)

-- latlearn's own samples name expected spans and have no variant.
pub own-IsApart :
    (spans_app more : List Bytes) (s : Sample)
    → is_own s ≡ true
    → IsApart ((spans_app ++ spans_latlearn_builtin) ++ more) s
unfolding span_key_form ◌==◌
own-IsApart spans_app more s o = ground (
  arith,
  mem-append s.name (spans_app ++ spans_latlearn_builtin) more,
  mem-append s.name spans_app spans_latlearn_builtin,
)

pub All-outside : (P : Sample → Type 0) (ss : List Sample) → All P ss → All P (outside ss)
unfolding outside
All-outside P [] a = tt
All-outside P (s ∷ ss) a = elim (Bool-cases (is_own s)) [
  | inl o ↦ rw o (All-outside P ss a.1)
  | inr o ↦ rw o (a.0, All-outside P ss a.1)
]

pub outside-All :
    (P : Sample → Type 0)
    → ((s : Sample) → is_own s ≡ true → P s)
    → (ss : List Sample) → All P (outside ss)
    → All P ss
unfolding outside
outside-All P own [] a = tt
outside-All P own (s ∷ ss) a = elim (Bool-cases (is_own s)) [
  | inl o ↦ (own s o, outside-All P own ss (rw o at a))
  | inr o ↦ let b : P s × All P (outside ss) = rw o at a in (b.0, outside-All P own ss b.1)
]
