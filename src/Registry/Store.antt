-- ===== src/Registry/Store.antt =====
-- The invariant of the registry, and what its small steps do to the statistics of each span.
use latlearn.Common.{
  ℕ, ◌≡◌, refl, ap, inl, inr, Bytes, Bool, true, false, Option, none, some, List, [], ◌∷◌, ◌++◌,
  ◌==◌, ==_sound, if◌then◌else◌, length, get_elem?, mem, mem-append, is_some, arith, Option-cases,
  get_elem?-append_new, get_elem?-append_left, subst,
}
use latlearn.Common.Dict.{lookup, insert, lookup-insert}
use latlearn.Learner.{LatencyLearner, new_learner}
use latlearn.Registry.{Registry, LearnerRef, get_ll}

-- What the pointer `p` shows in the heap; with no learner there, a new one stands for it.
abbrev pub read : List LatencyLearner → Option ℕ → Bytes → LatencyLearner
read heap none k = new_learner k
read heap (some a) k = elim (get_elem? heap a) [ none ↦ new_learner k | some ll ↦ ll ]

abbrev pub read_entry : List LatencyLearner → Option LearnerRef → Bytes → LatencyLearner
read_entry heap none k = new_learner k
read_entry heap (some ref) k = read heap (get_ll ref) k

-- The statistics of the span `k`: those of a new learner, if the map has no entry for it.
unfoldable pub stats : Registry → Bytes → LatencyLearner
stats r k = read_entry r.heap (lookup k r.learners) k

abbrev pub HasName : Option LatencyLearner → Bytes → Type 0
HasName none k = ⊥
HasName (some ll) k = ll.name ≡ k

abbrev pub IsPlaced : List LatencyLearner → Option ℕ → Bytes → Type 0
IsPlaced heap none k = ⊥
IsPlaced heap (some a) k = HasName (get_elem? heap a) k

abbrev pub IsPlacedEntry : List LatencyLearner → Option LearnerRef → Bytes → Type 0
IsPlacedEntry heap none k = Unit {0}
IsPlacedEntry heap (some ref) k = IsPlaced heap (get_ll ref) k

-- Every entry of the map points to a learner, one named like its key, so no two entries share one;
-- and the spans that are tracked are the keys of the map.
pub record IsValid (r : Registry) : Type 0 where
  pub placed : (k : Bytes) → IsPlacedEntry r.heap (lookup k r.learners) k
  pub tracked : (k : Bytes) → mem k r.tracked_spans ≡ is_some (lookup k r.learners)

pub read_eq :
    (h g : List LatencyLearner) (b : ℕ) (k : Bytes)
    → get_elem? h b ≡ get_elem? g b
    → read h (some b) k ≡ read g (some b) k
read_eq h g b k e = ap (λ o. elim o [ none ↦ new_learner k | some ll ↦ ll ]) e

-- The heap's growth moves nothing.
read-append :
    (heap ys : List LatencyLearner) (p : Option ℕ) (k : Bytes)
    → IsPlaced heap p k
    → IsPlaced (heap ++ ys) p k × (read (heap ++ ys) p k ≡ read heap p k)
read-append heap ys none k h = absurd h
read-append heap ys (some a) k h = elim (Option-cases (get_elem? heap a)) [
  | inl e ↦ absurd (rw e at h)
  | inr (ll, e) ↦ ground (arith, get_elem?-append_left heap ys a {v = ll} e)
]

-- An entry for a key that had none, with a new learner for it, tracked.
abbrev pub extended : Registry → Bytes → LearnerRef → Registry
extended r key ref = record {
  heap = r.heap ++ new_learner key ∷ [];
  learners = insert key ref r.learners;
  tracked_spans = r.tracked_spans ++ key ∷ [];
}

module _ (r : Registry) (key : Bytes) (ref : LearnerRef) (v : IsValid r)
    (new : lookup key r.learners ≡ none) (last : get_ll ref ≡ some (length r.heap)) where
  grown :
      (o : Option LearnerRef) (k : Bytes)
      → IsPlacedEntry r.heap o k
      → IsPlacedEntry (r.heap ++ new_learner key ∷ []) o k
        × (read_entry (r.heap ++ new_learner key ∷ []) o k ≡ read_entry r.heap o k)
  grown none k h = (tt, refl)
  grown (some e) k h = read-append r.heap _ (get_ll e) k h

  placed_new :
      IsPlacedEntry (r.heap ++ new_learner key ∷ []) (some ref) key
      × (read_entry (r.heap ++ new_learner key ∷ []) (some ref) key ≡ new_learner key)
  unfolding new_learner
  placed_new = ground (arith, get_elem?-append_new r.heap (new_learner key))

  extended-placed :
      (k : Bytes) (b : Bool)
      → (key == k) ≡ b
      → IsPlacedEntry
          (r.heap ++ new_learner key ∷ [])
          (if b then some ref else lookup k r.learners)
          k
  extended-placed k true e =
      subst (λ j. IsPlacedEntry (r.heap ++ new_learner key ∷ []) (some ref) j) (==_sound key k e)
        placed_new.0
  extended-placed k false e = (grown (lookup k r.learners) k (v.placed k)).0

  extended-read :
      (k : Bytes) (b : Bool)
      → (key == k) ≡ b
      → read_entry (r.heap ++ new_learner key ∷ []) (if b then some ref else lookup k r.learners) k
        ≡ stats r k
  unfolding stats
  extended-read k true e =
      subst
        (λ j.
          read_entry (r.heap ++ new_learner key ∷ []) (some ref) j
          ≡ read_entry r.heap (lookup j r.learners) j)
        (==_sound key k e) (rw new placed_new.1)
  extended-read k false e = (grown (lookup k r.learners) k (v.placed k)).1

  pub extended-IsValid : IsValid (extended r key ref)
  unfolding mem
  extended-IsValid = record {
    placed = λ k. rw (lookup-insert key k ref r.learners) (extended-placed k (key == k) refl);
    tracked = λ k.
        rw
          (mem-append k r.tracked_spans (key ∷ []), lookup-insert key k ref r.learners, v.tracked k)
          (ground arith);
  }

  pub stats-extended : (k : Bytes) → stats (extended r key ref) k ≡ stats r k
  unfolding stats
  stats-extended k = rw (lookup-insert key k ref r.learners) (extended-read k (key == k) refl)
