-- ===== src/Apps/App5/Spans.antt =====
-- The spans of the workers of example-app5.go, as latlearn counts their samples.
use latlearn.Common.{
  ℕ, zero, suc, ◌+◌, ◌≤◌, ◌<◌, ◌≡◌, inl, inr, refl, sym, ap, subst, ℤ, pos, Bytes, true, List, [],
  ◌∷◌, ◌++◌, ◌==◌, mem, mem-append, arith, Bool-cases, append-nil, eqb, ==_refl,
}
use mathlib.Core.List.{map}
use latlearn.Registry.{overhead_span, span_key_form, spans_latlearn_builtin}
use latlearn.Client.Outcome.Weights.{IsApartKey}
use latlearn.Client.Pool.Tally.{count, count_self}
use latlearn.Apps.App5.{value, worker_span, Context}
use latlearn.Apps.App5.Started.{KeyOf, worker_keys}
use latlearn.Apps.App5.Main.{main_keys, IsOfMain}

-- The spans of the workers of `main`.
abbrev pub span_names : List (Bytes × Bytes) → List Bytes
span_names keys = map (λ (key : Bytes × Bytes). key.0) keys

abbrev pub names : List Bytes
names = ([] ++ spans_latlearn_builtin) ++ span_names main_keys

mem_first : (s t : Bytes) (ts : List Bytes) → t ≡ s → mem s (t ∷ ts) ≡ true
unfolding mem
mem_first s t ts same = rw (same, ==_refl s) refl

mem_later : (s t : Bytes) (ts : List Bytes) → mem s ts ≡ true → mem s (t ∷ ts) ≡ true
unfolding mem
mem_later s t ts later = ground (arith, later)

count_later :
    (key other : Bytes × Bytes) (ks : List (Bytes × Bytes))
    → 1 ≤ count key ks
    → 1 ≤ count key (other ∷ ks)
unfolding count
count_later key other ks later = omega (arith, later)

-- A worker of a task is on the list of their spans.
abbrev pub Listed : Bytes → List (Bytes × Bytes) → Type 0
Listed span keys = (mem span (span_names keys) ≡ true) × (1 ≤ count (span, []) keys)

Listed-later :
    (span : Bytes) (other : Bytes × Bytes) (keys : List (Bytes × Bytes))
    → Listed span keys
    → Listed span (other ∷ keys)
Listed-later span other keys (m, c) =
    (mem_later span other.0 (span_names keys) m, count_later (span, []) other keys c)

Listed-after :
    (span : Bytes) (keys others : List (Bytes × Bytes))
    → Listed span others
    → Listed span (keys ++ others)
Listed-after span [] others l = l
Listed-after span (key ∷ keys) others l =
    Listed-later span key (keys ++ others) (Listed-after span keys others l)

worker_keys-Listed :
    (task_id : ℤ) (n i j : ℕ) (others : List (Bytes × Bytes))
    → i ≤ j
    → j < i + n
    → Listed (worker_span task_id j) (worker_keys task_id n i ++ others)
unfolding worker_keys
worker_keys-Listed task_id zero i j others from few = absurd (omega arith)
worker_keys-Listed task_id (suc n) i j others from few = elim (Bool-cases (eqb i j)) [
  | inl e ↦
      let same : i ≡ j = ground arith in
      let rest = worker_keys task_id n (i + 1) ++ others in
      (
        mem_first (worker_span task_id j) (worker_span task_id i) (span_names rest)
            (ap (worker_span task_id) same),
        subst (λ k. 1 ≤ count (worker_span task_id j, []) ((worker_span task_id k, []) ∷ rest))
            (sym same) (count_self (worker_span task_id j, []) rest),
      )
  | inr e ↦
      let later : i + 1 ≤ j = ground arith in
      Listed-later (worker_span task_id j) (worker_span task_id i, [])
        (worker_keys task_id n (i + 1) ++ others)
        (worker_keys-Listed task_id n (i + 1) j others later (omega arith))
]

pub main_keys-Listed : (ctx : Context) → IsOfMain ctx → Listed (value ctx) main_keys
main_keys-Listed ctx (inl (j, few, named)) =
    rw named (worker_keys-Listed (pos 537) 10 0 j (worker_keys (pos 296) 5 0) (omega arith) few)
main_keys-Listed ctx (inr (j, few, named)) = rw named (
    Listed-after (worker_span (pos 296) j) (worker_keys (pos 537) 10 0) (worker_keys (pos 296) 5 0)
      (subst (λ ks. Listed (worker_span (pos 296) j) ks) (append-nil (worker_keys (pos 296) 5 0))
        (worker_keys-Listed (pos 296) 5 0 j [] (omega arith) few)))

-- A sample of `main` or of its workers: without a variant, of a known span.
abbrev pub IsKnown : Bytes × Bytes → Type 0
IsKnown key = IsApartKey names key × (key.1 ≡ [])

plain-IsKnown : (name : Bytes) → mem name names ≡ true → IsKnown (name, [])
unfolding span_key_form ◌==◌
plain-IsKnown name at = ((at, refl), refl)

pub overhead-IsKnown : IsKnown (overhead_span, [])
overhead-IsKnown = plain-IsKnown overhead_span (unfold mem spans_latlearn_builtin ◌==◌ in refl)

pub worker-IsKnown : (key : Bytes × Bytes) → KeyOf IsOfMain key → IsKnown key
worker-IsKnown key (ctx, of_main, same) =
    let listed = main_keys-Listed ctx of_main in
    let at : mem (value ctx) names ≡ true = ground (
      arith,
      mem-append (value ctx) ([] ++ spans_latlearn_builtin) (span_names main_keys),
      listed.0,
    ) in
    rw same (plain-IsKnown (value ctx) at)
