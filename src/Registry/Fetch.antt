-- ===== src/Registry/Fetch.antt =====
-- `tracked_learner` and `tracked_variant` on a valid registry: the learner of the key is there
-- afterwards, no statistics have changed, and `tracked_spans` has grown at its end only.
use latlearn.Common.{
  ℕ, ◌≡◌, refl, sym, ◌≢◌, inl, inr, Bytes, Option, none, some, List, [], ◌∷◌, ◌++◌, ==_iff, ==_refl,
  length, get_elem?, arith, Option-cases, append-nil,
}
use latlearn.Common.Dict.{lookup, insert, lookup-insert}
use latlearn.Learner.{LatencyLearner}
use latlearn.Registry.{
  Registry, LearnerRef, ll_ref, vll_ref, VariantLatencyLearner, get_ll, tracked_learner,
  tracked_variant,
}
use latlearn.Registry.Store.{
  IsValid, IsPlaced, HasName, stats, extended, extended-IsValid, stats-extended,
}
use latlearn.Registry.Steps.{
  tracked_learner_new, tracked_learner_old, tracked_variant_new, tracked_variant_old,
}

-- The registry `s` has the entry `ref` for `key`, and differs from `r` in no statistics.
pub record Fetched (r : Registry) (key : Bytes) (ref : LearnerRef) (s : Registry) : Type 0 where
  pub entry : lookup key s.learners ≡ some ref
  pub valid : IsValid s
  pub same : (k : Bytes) → stats s k ≡ stats r k
  pub others : (k : Bytes) → key ≢ k → lookup k s.learners ≡ lookup k r.learners
  pub spans : (more : List Bytes) × (s.tracked_spans ≡ r.tracked_spans ++ more)

lookup-insert_self :
    (key : Bytes) (ref : LearnerRef) (m : List (Bytes × LearnerRef))
    → lookup key (insert key ref m) ≡ some ref
lookup-insert_self key ref m = rw (lookup-insert key key ref m, ==_refl key)

lookup-insert_ne :
    (key k : Bytes) (ref : LearnerRef) (m : List (Bytes × LearnerRef))
    → key ≢ k
    → lookup k (insert key ref m) ≡ lookup k m
lookup-insert_ne key k ref m ne = ground (arith, lookup-insert key k ref m, ==_iff key k)

Fetched-refl :
    (r : Registry) (key : Bytes) (ref : LearnerRef)
    → IsValid r
    → lookup key r.learners ≡ some ref
    → Fetched r key ref r
Fetched-refl r key ref v e = record {
  entry = e;
  valid = v;
  same = λ k. refl;
  others = λ k ne. refl;
  spans = ([], sym (append-nil r.tracked_spans));
}

Fetched-extended :
    (r : Registry) (key : Bytes) (ref : LearnerRef)
    → IsValid r
    → lookup key r.learners ≡ none
    → get_ll ref ≡ some (length r.heap)
    → Fetched r key ref (extended r key ref)
Fetched-extended r key ref v e p = record {
  entry = lookup-insert_self key ref r.learners;
  valid = extended-IsValid r key ref v e p;
  same = stats-extended r key ref v e p;
  others = λ k ne. lookup-insert_ne key k ref r.learners ne;
  spans = (key ∷ [], refl);
}

-- In a valid registry an entry points to a learner.
pub entry_pointer :
    (r : Registry) (key : Bytes) (ref : LearnerRef)
    → IsValid r
    → lookup key r.learners ≡ some ref
    → (a : ℕ) × (ll : LatencyLearner) × (get_ll ref ≡ some a) × (get_elem? r.heap a ≡ some ll)
entry_pointer r key ref v e = go (get_ll ref) refl (rw e at (v.placed key))
  where
    go2 :
        (a : ℕ) (o : Option LatencyLearner)
        → get_ll ref ≡ some a
        → get_elem? r.heap a ≡ o
        → HasName o key
        → (a : ℕ) × (ll : LatencyLearner) × (get_ll ref ≡ some a) × (get_elem? r.heap a ≡ some ll)
    go2 a none p q h = absurd h
    go2 a (some ll) p q h = (a, ll, p, q)

    go :
        (p : Option ℕ)
        → get_ll ref ≡ p
        → IsPlaced r.heap p key
        → (a : ℕ) × (ll : LatencyLearner) × (get_ll ref ≡ some a) × (get_elem? r.heap a ≡ some ll)
    go none q h = absurd h
    go (some a) q h = go2 a (get_elem? r.heap a) q refl h

-- What `tracked_learner` gives; a new entry is that of a plain span.
pub fetch_learner :
    (r : Registry) (key : Bytes)
    → IsValid r
    → (s : Registry) × (ref : LearnerRef) × (a : ℕ) × (tracked_learner r key ≡ (s, some a))
      × (get_ll ref ≡ some a)
      × Fetched r key ref s
fetch_learner r key v = elim (Option-cases (lookup key r.learners)) [
  | inl e ↦ (
    extended r key (ll_ref (length r.heap)),
    ll_ref (length r.heap),
    length r.heap,
    tracked_learner_new r key e,
    refl,
    Fetched-extended r key _ v e refl,
  )
  | inr (ref, e) ↦
      let (a, ll, p, q) = entry_pointer r key ref v e in
      (r, ref, a, tracked_learner_old r key ref a e p, p, Fetched-refl r key ref v e)
]

-- What `tracked_variant` gives where the key has no plain entry.
pub fetch_variant :
    (r : Registry) (key : Bytes)
    → IsValid r
    → ((a : ℕ) → lookup key r.learners ≢ some (ll_ref a))
    → (s : Registry) × (vll : VariantLatencyLearner) × (tracked_variant r key ≡ (s, some vll))
      × Fetched r key (vll_ref vll) s
fetch_variant r key v free = elim (Option-cases (lookup key r.learners)) [
  | inl e ↦
      let vll : VariantLatencyLearner = record {
        latency_learner = some (length r.heap);
        parent = none;
      } in
      (
        extended r key (vll_ref vll),
        vll,
        tracked_variant_new r key e,
        Fetched-extended r key (vll_ref vll) v e refl,
      )
  | inr (ref, e) ↦ go ref e
]
  where
    go :
        (ref : LearnerRef)
        → lookup key r.learners ≡ some ref
        → (s : Registry) × (vll : VariantLatencyLearner) × (tracked_variant r key ≡ (s, some vll))
          × Fetched r key (vll_ref vll) s
    go (ll_ref a) e = absurd (free a e)
    go (vll_ref vll) e = (r, vll, tracked_variant_old r key vll e, Fetched-refl r key _ v e)
