-- ===== src/Report/Whole/Seen.antt =====
-- Which spans a report shows: those tracked, latlearn's own apart where these are left out.
use latlearn.Common.{
  Option-cases, ◌≡◌, refl, ◌∙◌, subst, ℤ, Bytes, true, false, List, [], ◌∷◌, ◌==◌, codes, arith,
  mem, All, Bool-cases, inl, inr, ==_sound,
}
use latlearn.Common.Dict.{lookup}
use latlearn.Learner.{new_learner}
use latlearn.Learner.Samples.{Summarises, some_sample}
use latlearn.Registry.{Registry, spans_latlearn_builtin}
use latlearn.Registry.Store.{IsValid, stats}
use latlearn.State.{Latlearn}
use latlearn.Report.Host.{has_prefix}
use latlearn.Report.Whole.{is_skipped}

builtin-has_prefix : All (λ s. has_prefix s (codes "LL.") ≡ true) spans_latlearn_builtin
unfolding has_prefix spans_latlearn_builtin
builtin-has_prefix = search

prefix_of :
    (k : Bytes) (spans : List Bytes)
    → All (λ s. has_prefix s (codes "LL.") ≡ true) spans
    → mem k spans ≡ true
    → has_prefix k (codes "LL.") ≡ true
unfolding mem
prefix_of k [] all at = absurd (ground arith)
prefix_of k (s ∷ spans) (first, rest) at = elim (Bool-cases (s == k)) [
  | inl same ↦ subst (λ t. has_prefix t (codes "LL.") ≡ true) (==_sound s k same) first
  | inr other ↦ prefix_of k spans rest (ground arith)
]

pub prefix_not_builtin :
    (k : Bytes) → has_prefix k (codes "LL.") ≡ false → mem k spans_latlearn_builtin ≡ false
prefix_not_builtin k own = elim (Bool-cases (mem k spans_latlearn_builtin)) [
  | inr out ↦ out
  | inl at ↦ absurd (ground (arith, prefix_of k spans_latlearn_builtin builtin-has_prefix at))
]

pub not_skipped :
    (l : Latlearn) (k : Bytes) → has_prefix k (codes "LL.") ≡ false → is_skipped l k ≡ false
unfolding is_skipped
not_skipped l k own = ground arith

-- A key with a sample is tracked.
pub tracked_if_sampled :
    (r : Registry) (k : Bytes) (ds : List ℤ)
    → IsValid r
    → Summarises (stats r k) k ds
    → some_sample ds ≡ true
    → mem k r.tracked_spans ≡ true
tracked_if_sampled r k ds v s some_ended = elim (Option-cases (lookup k r.learners)) [
  | inr (ref, found) ↦ v.tracked k ∙ rw found refl
  | inl none_yet ↦
      let blank : (stats r k).pair_ever_completed ≡ false =
        unfold stats new_learner in rw none_yet refl in
      absurd (ground (arith, s.completed))
]
