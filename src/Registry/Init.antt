-- ===== src/Registry/Init.antt =====
-- The registry that `init_inner` leaves: one learner with no samples for each expected span.
use latlearn.Common.{
  ◌≡◌, refl, inl, inr, ◌∙◌, Bytes, Bool, true, ◌||◌, Option, none, some, List, [], ◌∷◌, ◌++◌, ◌==◌,
  ==_iff, length, mem, mem-append, is_some, arith, Option-cases, append-nil, append_assoc, subst,
}
use latlearn.Common.Dict.{lookup}
use latlearn.Learner.{new_learner}
use latlearn.Registry.{
  Registry, LearnerRef, ll_ref, latency_learner, add_spans, empty_registry, init_registry,
  spans_latlearn_builtin,
}
use latlearn.Registry.Store.{IsValid, stats, extended, extended-IsValid, stats-extended}
use latlearn.Registry.Handle.{is_plain}

abbrev with_spans : Registry → List Bytes → Registry
with_spans r ts = record r { tracked_spans = ts }

latency_learner_new :
    (r : Registry) (s : Bytes) (ts : List Bytes)
    → lookup s r.learners ≡ none
    → with_spans (latency_learner r s).0 (ts ++ s ∷ [])
      ≡ extended (with_spans r ts) s (ll_ref (length r.heap))
unfolding latency_learner
latency_learner_new r s ts e = ground arith

latency_learner_old :
    (r : Registry) (s : Bytes) (ref : LearnerRef)
    → lookup s r.learners ≡ some ref
    → (latency_learner r s).0 ≡ r
unfolding latency_learner
latency_learner_old r s ref e = ground arith

known-IsValid :
    (r : Registry) (s : Bytes) (ts : List Bytes) (ref : LearnerRef)
    → IsValid (with_spans r ts)
    → lookup s r.learners ≡ some ref
    → IsValid (with_spans r (ts ++ s ∷ []))
unfolding mem
known-IsValid r s ts ref v e = record {
  placed = v.placed;
  tracked = λ k. rw (mem-append k ts (s ∷ [])) (go k (s == k) refl);
}
  where
    go :
        (k : Bytes) (b : Bool)
        → (s == k) ≡ b
        → (mem k ts || mem k (s ∷ [])) ≡ is_some (lookup k r.learners)
    go k b h = ground (arith, v.tracked k, ==_iff s k)

-- One span of the list: its learner is there, and nothing else has changed.
add_span :
    (r : Registry) (s : Bytes) (ts : List Bytes)
    → IsValid (with_spans r ts)
    → IsValid (with_spans (latency_learner r s).0 (ts ++ s ∷ []))
      × ((k : Bytes)
          → stats (with_spans (latency_learner r s).0 (ts ++ s ∷ [])) k ≡ stats (with_spans r ts) k)
add_span r s ts v = elim (Option-cases (lookup s r.learners)) [
  | inl e ↦ rw (latency_learner_new r s ts e) (
    extended-IsValid (with_spans r ts) s _ v e refl,
    stats-extended (with_spans r ts) s _ v e refl,
  )
  | inr (ref, e) ↦
      rw (latency_learner_old r s ref e) (known-IsValid r s ts ref v e, λ k. unfold stats in refl)
]

add_spans-IsValid :
    (r : Registry) (ss ts : List Bytes)
    → IsValid (with_spans r ts)
    → IsValid (with_spans (add_spans r ss) (ts ++ ss))
      × ((k : Bytes) → stats (with_spans (add_spans r ss) (ts ++ ss)) k ≡ stats (with_spans r ts) k)
unfolding add_spans
add_spans-IsValid r [] ts v = rw (append-nil ts) (v, λ k. refl)
add_spans-IsValid r (s ∷ ss) ts v =
    let (w, same) = add_span r s ts v in
    let (w', same') = add_spans-IsValid (latency_learner r s).0 ss (ts ++ s ∷ []) w in
    subst
      (λ l.
        IsValid (with_spans (add_spans (latency_learner r s).0 ss) l)
        × ((k : Bytes)
            → stats (with_spans (add_spans (latency_learner r s).0 ss) l) k
              ≡ stats (with_spans r ts) k))
      (append_assoc ts (s ∷ []) ss) (w', λ k. same' k ∙ same k)

pub empty-IsValid : IsValid empty_registry
unfolding mem lookup
empty-IsValid = record { placed = λ k. tt; tracked = λ k. refl }

-- After `init_inner` the registry is valid, whatever spans the application names.
pub init_registry-IsValid : (spans_app : List Bytes) → IsValid (init_registry spans_app)
unfolding init_registry
init_registry-IsValid spans_app =
    (add_spans-IsValid empty_registry (spans_app ++ spans_latlearn_builtin) [] empty-IsValid).0

-- After `init_inner` every span, expected or not, has no samples.
pub stats-init_registry :
    (spans_app : List Bytes) (k : Bytes) → stats (init_registry spans_app) k ≡ new_learner k
unfolding init_registry
stats-init_registry spans_app k =
    (add_spans-IsValid empty_registry (spans_app ++ spans_latlearn_builtin) [] empty-IsValid).1 k
    ∙ unfold stats lookup in refl

-- Its entries are plain spans that it tracks.
pub init_registry-plains :
    (spans_app : List Bytes) (k : Bytes)
    → is_plain (lookup k (init_registry spans_app).learners) ≡ true
    → mem k (spans_app ++ spans_latlearn_builtin) ≡ true
unfolding init_registry
init_registry-plains spans_app k h =
    (init_registry-IsValid spans_app).tracked k ∙ go (lookup k (init_registry spans_app).learners) h
  where
    go : (o : Option LearnerRef) → is_plain o ≡ true → is_some o ≡ true
    go none h = ground arith
    go (some ref) h = refl
