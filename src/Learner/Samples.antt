-- ===== src/Learner/Samples.antt =====
-- What a `latencyLearner` holds after a sequence of samples, against a description of the samples.
use latlearn.Common.{
  suc, ◌≡◌, refl, ap, ℤ, pos, Bytes, Bool, true, false, List, [], ◌∷◌, arith, if◌then◌else◌, length,
  subst, sym, inl, All, Member,
}
use latlearn.Common.Int.{◌+ℤ◌, ◌≤ℤ◌, wrap64, wrap64-+ℤ, ltb_ℤ, int_laws}
use latlearn.Learner.{LatencyLearner, new_learner, after2}

-- The samples of a span, newest first.
abbrev pub sum : List ℤ → ℤ
sum [] = pos 0
sum (d ∷ ds) = sum ds +ℤ d

abbrev pub some_sample : List ℤ → Bool
some_sample [] = false
some_sample (d ∷ ds) = true

abbrev pub newest : List ℤ → ℤ
newest [] = pos 0
newest (d ∷ ds) = d

-- The extremes of the samples; a learner with no sample holds the zero value.
abbrev pub IsLeast : ℤ → List ℤ → Type 0
IsLeast m [] = m ≡ pos 0
IsLeast m (d ∷ ds) = Member m (d ∷ ds) × All (λ x. m ≤ℤ x) (d ∷ ds)

abbrev pub IsGreatest : ℤ → List ℤ → Type 0
IsGreatest m [] = m ≡ pos 0
IsGreatest m (d ∷ ds) = Member m (d ∷ ds) × All (λ x. x ≤ℤ m) (d ∷ ds)

-- The learner summarises the samples `ds` of the span `name`.
pub record Summarises (ll : LatencyLearner) (name : Bytes) (ds : List ℤ) : Type 0 where
  pub named : ll.name ≡ name
  pub latest : ll.last ≡ newest ds
  pub summed : ll.cumul ≡ wrap64 (sum ds)
  pub weighed : ll.weight ≡ wrap64 (pos (length ds))
  pub least : IsLeast ll.min ds
  pub greatest : IsGreatest ll.max ds
  pub completed : ll.pair_ever_completed ≡ some_sample ds

pub new_learner-Summarises : (name : Bytes) → Summarises (new_learner name) name []
unfolding new_learner wrap64
new_learner-Summarises name = record {
  named = refl;
  latest = refl;
  summed = refl;
  weighed = refl;
  least = refl;
  greatest = refl;
  completed = refl;
}

le-All : (m n : ℤ) (ds : List ℤ) → n ≤ℤ m → All (λ x. m ≤ℤ x) ds → All (λ x. n ≤ℤ x) ds
le-All m n [] h a = tt
le-All m n (d ∷ ds) h a = (omega arith, le-All m n ds h a.1)

ge-All : (m n : ℤ) (ds : List ℤ) → m ≤ℤ n → All (λ x. x ≤ℤ m) ds → All (λ x. x ≤ℤ n) ds
ge-All m n [] h a = tt
ge-All m n (d ∷ ds) h a = (omega arith, ge-All m n ds h a.1)

lower : Bool → ℤ → ℤ → ℤ
lower ever m d = if ever then (if ltb_ℤ d m then d else m) else d

lower-IsLeast :
    (m d : ℤ) (ds : List ℤ) → IsLeast m ds → IsLeast (lower (some_sample ds) m d) (d ∷ ds)
unfolding lower
lower-IsLeast m d [] h = (inl refl, (omega arith, tt))
lower-IsLeast m d (x ∷ ds) h = ground (arith, le-All m d ds)

raise : Bool → ℤ → ℤ → ℤ
raise ever m d = if ever then (if ltb_ℤ m d then d else m) else d

raise-IsGreatest :
    (m d : ℤ) (ds : List ℤ) → IsGreatest m ds → IsGreatest (raise (some_sample ds) m d) (d ∷ ds)
unfolding raise
raise-IsGreatest m d [] h = (inl refl, (omega arith, tt))
raise-IsGreatest m d (x ∷ ds) h = ground (arith, ge-All m d ds)

length-word :
    (ds : List ℤ) (w : ℤ)
    → w ≡ wrap64 (pos (length ds))
    → wrap64 (w +ℤ pos 1) ≡ wrap64 (pos (suc (length ds)))
length-word ds w h = rw (h, wrap64-+ℤ (pos (length ds)) (pos 1)) (ap wrap64 (omega int_laws))

pub after2-Summarises :
    (ll : LatencyLearner) (name : Bytes) (ds : List ℤ) (d : ℤ)
    → Summarises ll name ds
    → Summarises (after2 ll d) name (d ∷ ds)
unfolding after2 lower raise
after2-Summarises ll name ds d s = record {
  named = s.named;
  latest = refl;
  summed = rw s.summed (wrap64-+ℤ (sum ds) d);
  weighed = length-word ds ll.weight s.weighed;
  least =
      subst (λ b. IsLeast (lower b ll.min d) (d ∷ ds)) (sym s.completed)
        (lower-IsLeast ll.min d ds s.least);
  greatest =
      subst (λ b. IsGreatest (raise b ll.max d) (d ∷ ds)) (sym s.completed)
        (raise-IsGreatest ll.max d ds s.greatest);
  completed = refl;
}

-- The calls of `after2` that the samples make, oldest first.
unfoldable pub record_all : LatencyLearner → List ℤ → LatencyLearner
record_all ll [] = ll
record_all ll (d ∷ ds) = after2 (record_all ll ds) d

-- A new learner that is given the samples `ds`, in order, summarises exactly these: the last, the
-- sum and the count wrapped to 64 bits, the least and the greatest, and whether there is any.
pub record_all-Summarises :
    (name : Bytes) (ds : List ℤ) → Summarises (record_all (new_learner name) ds) name ds
unfolding record_all
record_all-Summarises name [] = new_learner-Summarises name
record_all-Summarises name (d ∷ ds) = after2-Summarises _ name ds d (record_all-Summarises name ds)
