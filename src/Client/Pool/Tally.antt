-- ===== src/Client/Pool/Tally.antt =====
-- Amounts of the samples that goroutines end, and how much they gain from one world to another.
use latlearn.Common.{
  ℕ, zero, suc, ◌+◌, ◌≡◌, refl, sym, ap, ◌∙◌, Bytes, List, [], ◌∷◌, ◌++◌, append-nil, append_assoc,
  arith, ◌&&◌, ◌≤◌, ==_sound, ==_refl, All, Bool-cases, inl, inr, subst, true, false, ◌==◌, Bool,
  if◌then◌else◌,
}
use latlearn.Client.{World}
use latlearn.Client.Outcome.{Ready, samples}
use latlearn.Client.Outcome.Loops.{repeated}

-- When samples are `n` of what is measured.
pub record Tally : Type 1 where
  pub Amount : List (Bytes × Bytes) → ℕ → Type 0
  pub amount_none : Amount [] 0
  pub amount_sum :
      (ks js : List (Bytes × Bytes)) (m n : ℕ)
      → Amount ks m
      → Amount js n
      → Amount (ks ++ js) (m + n)

pub repeated_sum :
    (m n : ℕ) (ks : List (Bytes × Bytes)) → repeated (m + n) ks ≡ repeated m ks ++ repeated n ks
unfolding repeated
repeated_sum zero n ks = let p : 0 + n ≡ n = omega arith in ap (λ k. repeated k ks) p
repeated_sum (suc m) n ks =
    let p : suc m + n ≡ suc (m + n) = omega arith in
    ap (λ k. repeated k ks) p
    ∙ ap (λ js. ks ++ js) (repeated_sum m n ks)
    ∙ sym (append_assoc ks (repeated m ks) (repeated n ks))

pub repeated_zero : (ks : List (Bytes × Bytes)) → [] ≡ repeated 0 ks
unfolding repeated
repeated_zero ks = refl

-- Nothing but samples of `key`.
abbrev pub only : Bytes × Bytes → Tally
only key = record {
  Amount = λ ks n. ks ≡ repeated n (key ∷ []);
  amount_none = repeated_zero (key ∷ []);
  amount_sum = λ ks js m n p q. rw (p, q) (sym (repeated_sum m n (key ∷ [])));
}

abbrev pub same_key : Bytes × Bytes → Bytes × Bytes → Bool
same_key (name, variant) (other, other_variant) = (name == other) && (variant == other_variant)

-- How many of the samples are of `key`.
unfoldable pub count : Bytes × Bytes → List (Bytes × Bytes) → ℕ
count key [] = 0
count key (k ∷ ks) = (if same_key key k then 1 else 0) + count key ks

pub count-append :
    (key : Bytes × Bytes) (ks js : List (Bytes × Bytes))
    → count key (ks ++ js) ≡ count key ks + count key js
unfolding count
count-append key [] js = omega arith
count-append key (k ∷ ks) js = omega (arith, count-append key ks js)

pub count-repeated :
    (key : Bytes × Bytes) (n : ℕ) (other : Bytes × Bytes)
    → same_key key other ≡ false
    → count key (repeated n (other ∷ [])) ≡ 0
unfolding count repeated
count-repeated key zero other apart = refl
count-repeated key (suc n) other apart = ground (arith, count-repeated key n other apart)

same_key_sound : (key other : Bytes × Bytes) → same_key key other ≡ true → other ≡ key
same_key_sound (name, variant) (other, other_variant) q =
    let n : name ≡ other = ==_sound name other (ground arith) in
    let v : variant ≡ other_variant = ==_sound variant other_variant (ground arith) in
    rw (n, v) refl

counted_All :
    (Q : Bytes × Bytes → Type 0) (key : Bytes × Bytes) (ys : List (Bytes × Bytes))
    → 1 ≤ count key ys
    → All Q ys
    → Q key
unfolding count
counted_All Q key [] some_counted all = absurd (omega (arith, some_counted))
counted_All Q key (y ∷ ys) some_counted (first, rest) = elim (Bool-cases (same_key key y)) [
  | inl same ↦ subst Q (same_key_sound key y same) first
  | inr other ↦ counted_All Q key ys (ground (arith, some_counted)) rest
]

pub count_self : (key : Bytes × Bytes) (ks : List (Bytes × Bytes)) → 1 ≤ count key (key ∷ ks)
unfolding count
count_self key ks = ground (arith, ==_refl key.0, ==_refl key.1)

count_tail : (key x : Bytes × Bytes) (xs : List (Bytes × Bytes)) → count key xs ≤ count key (x ∷ xs)
unfolding count
count_tail key x xs = omega arith

-- What holds of all samples of one list holds of those of another that has no more of any.
pub fewer-All :
    (Q : Bytes × Bytes → Type 0) (xs ys : List (Bytes × Bytes))
    → ((key : Bytes × Bytes) → count key xs ≤ count key ys)
    → All Q ys
    → All Q xs
fewer-All Q [] ys fewer all = tt
fewer-All Q (x ∷ xs) ys fewer all =
    let some_counted : 1 ≤ count x ys = omega (arith, count_self x xs, fewer x) in
    (
      counted_All Q x ys some_counted all,
      fewer-All Q xs ys (λ key. omega (arith, fewer key, count_tail key x xs)) all,
    )

pub count-nil : (key : Bytes × Bytes) → count key [] ≡ 0
unfolding count
count-nil key = refl

-- Any samples, of which those of `key` are counted.
abbrev pub counted : Bytes × Bytes → Tally
counted key = record {
  Amount = λ ks n. count key ks ≡ n;
  amount_none = count-nil key;
  amount_sum = λ ks js m n p q. omega (arith, count-append key ks js, p, q);
}

-- From `w` to `v`, samples have been ended that are `n` of what is measured.
pub record Gained (t : Tally) (w : World) (n : ℕ) (v : World) : Type 0 where
  pub ready : Ready v.latlearn
  pub new : List (Bytes × Bytes)
  pub ended : samples v ≡ samples w ++ new
  pub amount : t.Amount new n

pub Gained-none : (t : Tally) (w : World) → Ready w.latlearn → Gained t w 0 w
Gained-none t w ready = record {
  ready = ready;
  new = [];
  ended = sym (append-nil (samples w));
  amount = t.amount_none;
}

pub Gained-sum :
    (t : Tally) (w u v : World) (m n : ℕ) → Gained t w m u → Gained t u n v → Gained t w (m + n) v
Gained-sum t w u v m n g h = record {
  ready = h.ready;
  new = g.new ++ h.new;
  ended = h.ended ∙ ap (λ ks. ks ++ h.new) g.ended ∙ append_assoc (samples w) g.new h.new;
  amount = t.amount_sum g.new h.new m n g.amount h.amount;
}
