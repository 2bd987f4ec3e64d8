-- ===== src/Registry/Reordered.antt =====
-- Histories of the same samples in another order: what the learners hold does not depend on it, the last
-- sample apart.
use mathlib.Core.List.{Permᴰ}
use mathlib.Core.List.Permᴰ
use latlearn.Common.{
  suc, ◌≡◌, refl, sym, ap, ◌∙◌, subst, inl, inr, ℤ, pos, Bytes, List, [], ◌∷◌, ◌++◌, All, Member,
  All-Member, Bool-cases, arith, length, if◌then◌else◌,
}
use latlearn.Common.Int.{◌+ℤ◌, ◌≤ℤ◌, wrap64, int_laws}
use latlearn.Learner.{LatencyLearner, mean}
use latlearn.Learner.Samples.{Summarises, IsLeast, IsGreatest, sum, some_sample}
use latlearn.Registry.{Sample, run, init_registry, spans_latlearn_builtin, time_sub}
use latlearn.Registry.Family.{counts_for}
use latlearn.Registry.Store.{stats}
use latlearn.Registry.Trace.{durations, IsApart, stats-run-Summarises}

module _ {A : Type 0} where
  Perm-length : {xs ys : List A} → Permᴰ xs ys → length xs ≡ length ys
  Perm-length Permᴰ.nil = refl
  Perm-length (Permᴰ.cons e p) = ap suc (Perm-length p)
  Perm-length (Permᴰ.swap e f) = refl
  Perm-length (Permᴰ.trans p q) = Perm-length p ∙ Perm-length q

  Perm-All : (P : A → Type 0) {xs ys : List A} → Permᴰ xs ys → All P xs → All P ys
  Perm-All P Permᴰ.nil all = all
  Perm-All P (Permᴰ.cons e p) (first, rest) = (subst P e first, Perm-All P p rest)
  Perm-All P (Permᴰ.swap e f) (first, (second, rest)) = (subst P f second, (subst P e first, rest))
  Perm-All P (Permᴰ.trans p q) all = Perm-All P q (Perm-All P p all)

  Perm-Member : (a : A) {xs ys : List A} → Permᴰ xs ys → Member a xs → Member a ys
  Perm-Member a Permᴰ.nil m = m
  Perm-Member a (Permᴰ.cons e p) (inl here) = inl (sym e ∙ here)
  Perm-Member a (Permᴰ.cons e p) (inr later) = inr (Perm-Member a p later)
  Perm-Member a (Permᴰ.swap e f) (inl first) = inr (inl (sym e ∙ first))
  Perm-Member a (Permᴰ.swap e f) (inr (inl second)) = inl (sym f ∙ second)
  Perm-Member a (Permᴰ.swap e f) (inr (inr later)) = inr (inr later)
  Perm-Member a (Permᴰ.trans p q) m = Perm-Member a q (Perm-Member a p m)

swap_durations :
    (k : Bytes) (a b : Sample) (ss : List Sample)
    → Permᴰ (durations k (a ∷ b ∷ ss)) (durations k (b ∷ a ∷ ss))
unfolding durations
swap_durations k a b ss = elim (Bool-cases (counts_for a.name a.variant k)) [
  | inl here ↦ elim (Bool-cases (counts_for b.name b.variant k)) [
    | inl there ↦ rw (here, there) (Permᴰ.swap refl refl)
    | inr apart ↦ rw (here, apart) (Permᴰ.refl (time_sub a.t2 a.t1 ∷ durations k ss))
  ]
  | inr away ↦ elim (Bool-cases (counts_for b.name b.variant k)) [
    | inl there ↦ rw (away, there) (Permᴰ.refl (time_sub b.t2 b.t1 ∷ durations k ss))
    | inr apart ↦ rw (away, apart) (Permᴰ.refl (durations k ss))
  ]
]

Perm-durations :
    (k : Bytes) {ss ts : List Sample} → Permᴰ ss ts → Permᴰ (durations k ss) (durations k ts)
unfolding durations
Perm-durations k Permᴰ.nil = Permᴰ.nil
Perm-durations k (Permᴰ.cons {a} {b} {l₁} {l₂} e p) =
    let rest = Perm-durations k p in
    subst
      (λ (s : Sample). Permᴰ (durations k (a ∷ l₁)) (
        if counts_for s.name s.variant k
        then time_sub s.t2 s.t1 ∷ durations k l₂
        else durations k l₂))
      e
      (elim (Bool-cases (counts_for a.name a.variant k)) [
        | inl here ↦ rw here (Permᴰ.cons refl rest)
        | inr apart ↦ rw apart rest
      ])
Perm-durations k (Permᴰ.swap {a} {b} {a'} {b'} {l} e f) =
    subst (λ (y : Sample). Permᴰ (durations k (a ∷ b ∷ l)) (durations k (y ∷ b' ∷ l))) f
      (subst (λ (x : Sample). Permᴰ (durations k (a ∷ b ∷ l)) (durations k (b ∷ x ∷ l))) e
        (swap_durations k a b l))
Perm-durations k (Permᴰ.trans p q) = Permᴰ.trans (Perm-durations k p) (Perm-durations k q)

Perm-sum : {ds es : List ℤ} → Permᴰ ds es → sum ds ≡ sum es
Perm-sum Permᴰ.nil = refl
Perm-sum (Permᴰ.cons {a} {b} {l₁} {l₂} e p) =
    ap (λ s. s +ℤ a) (Perm-sum p) ∙ ap (λ d. sum l₂ +ℤ d) e
Perm-sum (Permᴰ.swap {a} {b} {a'} {b'} {l} e f) =
    let swapped : (sum l +ℤ b) +ℤ a ≡ (sum l +ℤ a) +ℤ b = omega int_laws in
    swapped ∙ ap (λ d. (sum l +ℤ d) +ℤ b) e ∙ ap (λ d. (sum l +ℤ b') +ℤ d) f
Perm-sum (Permᴰ.trans p q) = Perm-sum p ∙ Perm-sum q

least_same : (m n : ℤ) (ds es : List ℤ) → Permᴰ ds es → IsLeast m ds → IsLeast n es → m ≡ n
least_same m n [] [] p a b = a ∙ sym b
least_same m n [] (e ∷ es) p a b = let q = Perm-length p in absurd (omega arith)
least_same m n (d ∷ ds) [] p a b = let q = Perm-length p in absurd (omega arith)
least_same m n (d ∷ ds) (e ∷ es) p (at, all) (at', all') =
    let up = All-Member (λ x. m ≤ℤ x) n (d ∷ ds) all (Perm-Member n (Permᴰ.symm p) at') in
    let down = All-Member (λ x. n ≤ℤ x) m (e ∷ es) all' (Perm-Member m p at) in omega int_laws

greatest_same : (m n : ℤ) (ds es : List ℤ) → Permᴰ ds es → IsGreatest m ds → IsGreatest n es → m ≡ n
greatest_same m n [] [] p a b = a ∙ sym b
greatest_same m n [] (e ∷ es) p a b = let q = Perm-length p in absurd (omega arith)
greatest_same m n (d ∷ ds) [] p a b = let q = Perm-length p in absurd (omega arith)
greatest_same m n (d ∷ ds) (e ∷ es) p (at, all) (at', all') =
    let up = All-Member (λ x. x ≤ℤ m) n (d ∷ ds) all (Perm-Member n (Permᴰ.symm p) at') in
    let down = All-Member (λ x. x ≤ℤ n) m (e ∷ es) all' (Perm-Member m p at) in omega int_laws

-- Learners that hold the same, their last samples apart.
pub record Agree (a b : LatencyLearner) : Type 0 where
  pub name : a.name ≡ b.name
  pub cumul : a.cumul ≡ b.cumul
  pub weight : a.weight ≡ b.weight
  pub min : a.min ≡ b.min
  pub max : a.max ≡ b.max
  pub completed : a.pair_ever_completed ≡ b.pair_ever_completed
  pub means : mean a ≡ mean b

same_some : (ds es : List ℤ) → length ds ≡ length es → some_sample ds ≡ some_sample es
same_some [] [] q = refl
same_some [] (e ∷ es) q = absurd (omega arith)
same_some (d ∷ ds) [] q = absurd (omega arith)
same_some (d ∷ ds) (e ∷ es) q = refl

same_mean : (a b : LatencyLearner) → a.cumul ≡ b.cumul → a.weight ≡ b.weight → mean a ≡ mean b
unfolding mean
same_mean a b c w = rw (c, w) refl

Summarises-Agree :
    (a b : LatencyLearner) (name : Bytes) (ds es : List ℤ)
    → Permᴰ ds es
    → Summarises a name ds
    → Summarises b name es
    → Agree a b
Summarises-Agree a b name ds es p s t =
    let cumul = s.summed ∙ ap wrap64 (Perm-sum p) ∙ sym t.summed in
    let weight = s.weighed ∙ ap (λ n. wrap64 (pos n)) (Perm-length p) ∙ sym t.weighed in
    record {
      name = s.named ∙ sym t.named;
      cumul = cumul;
      weight = weight;
      min = least_same a.min b.min ds es p s.least t.least;
      max = greatest_same a.max b.max ds es p s.greatest t.greatest;
      completed = s.completed ∙ same_some ds es (Perm-length p) ∙ sym t.completed;
      means = same_mean a b cumul weight;
    }

-- The order in which samples arrive makes no difference but to the last: after two histories of the same
-- samples, for expected spans and for those of the list `more`, in which no variant's key is the name of
-- such a span, the learners of every key have the same name, sum, weight, least and greatest sample,
-- mean, and the same flag for having a sample.
pub stats-run-Agree :
    (spans_app more : List Bytes) (ss ts : List Sample) (k : Bytes)
    → Permᴰ ss ts
    → All (IsApart ((spans_app ++ spans_latlearn_builtin) ++ more)) ss
    → Agree
        (stats (run (init_registry spans_app) ss) k)
        (stats (run (init_registry spans_app) ts) k)
stats-run-Agree spans_app more ss ts k p apart =
    Summarises-Agree _ _ k (durations k ss) (durations k ts) (Perm-durations k p)
      (stats-run-Summarises spans_app more ss k apart)
      (stats-run-Summarises spans_app more ts k
        (Perm-All (IsApart ((spans_app ++ spans_latlearn_builtin) ++ more)) p apart))
