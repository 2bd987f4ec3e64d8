-- ===== src/Registry/Steps.antt =====
-- The small steps of `handle_ssu_A` on a valid registry: `tracked_learner`, `tracked_variant`,
-- `set_variant` and one sample for a learner.
use latlearn.Registry.Store.{
  read, read_entry, stats, IsPlaced, IsPlacedEntry, IsValid, read_eq, extended,
}
use latlearn.Common.{
  ℕ, ◌≡◌, refl, sym, ◌∙◌, ◌≢◌, ℤ, Bytes, Bool, true, false, Option, none, some, ◌==◌, ==_iff,
  ==_sound, if◌then◌else◌, length, get_elem?, set, is_some, arith, get_elem?-lt, get_elem?-set_self,
  get_elem?-set_ne, subst,
}
use latlearn.Common.Dict.{lookup, lookup-insert}
use latlearn.Learner.{LatencyLearner, after2}
use latlearn.Registry.{
  Registry, LearnerRef, ll_ref, vll_ref, VariantLatencyLearner, get_ll, latency_learner,
  variant_latency_learner, track, tracked_learner, tracked_variant, after2_at, set_variant,
}

module _ (r : Registry) (key : Bytes) where
  -- What `latency_learner` and the tracking of its key do, by the entry of the key.
  pub tracked_learner_new :
      lookup key r.learners ≡ none
      → tracked_learner r key ≡ (extended r key (ll_ref (length r.heap)), some (length r.heap))
  unfolding tracked_learner latency_learner track
  tracked_learner_new e = ground arith

  pub tracked_learner_old :
      (ref : LearnerRef) (a : ℕ)
      → lookup key r.learners ≡ some ref
      → get_ll ref ≡ some a
      → tracked_learner r key ≡ (r, some a)
  unfolding tracked_learner latency_learner track
  tracked_learner_old ref a e p = ground arith

  pub tracked_variant_new :
      lookup key r.learners ≡ none
      → let vll : VariantLatencyLearner = record {
        latency_learner = some (length r.heap);
        parent = none;
      } in
        tracked_variant r key ≡ (extended r key (vll_ref vll), some vll)
  unfolding tracked_variant variant_latency_learner track
  tracked_variant_new e = ground arith

  pub tracked_variant_old :
      (v : VariantLatencyLearner)
      → lookup key r.learners ≡ some (vll_ref v)
      → tracked_variant r key ≡ (r, some v)
  unfolding tracked_variant variant_latency_learner track
  tracked_variant_old v e = ground arith

  -- A variant whose key has the entry of a plain span gets no learner.
  pub tracked_variant_clash :
      (a : ℕ) → lookup key r.learners ≡ some (ll_ref a) → tracked_variant r key ≡ (r, none)
  unfolding tracked_variant variant_latency_learner track
  tracked_variant_clash a e = ground arith

module _ (r : Registry) (key : Bytes) (vll : VariantLatencyLearner) (p : Option ℕ) (v : IsValid r)
    (old : lookup key r.learners ≡ some (vll_ref vll)) where
  same_entry :
      (k : Bytes) (b : Bool)
      → (key == k) ≡ b
      → IsPlacedEntry r.heap
          (if b then some (vll_ref (record vll { parent = p })) else lookup k r.learners)
          k
        × (is_some (if b then some (vll_ref (record vll { parent = p })) else lookup k r.learners)
            ≡ is_some (lookup k r.learners))
        × (read_entry r.heap
              (if b then some (vll_ref (record vll { parent = p })) else lookup k r.learners)
              k
            ≡ read_entry r.heap (lookup k r.learners) k)
  same_entry k true e =
      subst
        (λ j.
          IsPlacedEntry r.heap (some (vll_ref (record vll { parent = p }))) j
          × (true ≡ is_some (lookup j r.learners))
          × (read_entry r.heap (some (vll_ref (record vll { parent = p }))) j
              ≡ read_entry r.heap (lookup j r.learners) j))
        (==_sound key k e) (rw old at here_placed, rw old refl, rw old refl)
    where
      here_placed : IsPlacedEntry r.heap (lookup key r.learners) key
      here_placed = v.placed key
  same_entry k false e = (v.placed k, refl, refl)

  pub set_variant-IsValid : IsValid (set_variant r key (record vll { parent = p }))
  unfolding set_variant
  set_variant-IsValid = record {
    placed = λ k. rw (lookup-insert key k _ r.learners) (same_entry k (key == k) refl).0;
    tracked = λ k.
        rw (lookup-insert key k _ r.learners, v.tracked k) (sym (same_entry k (key == k) refl).1);
  }

  pub stats-set_variant :
      (k : Bytes) → stats (set_variant r key (record vll { parent = p })) k ≡ stats r k
  unfolding set_variant stats
  stats-set_variant k = rw (lookup-insert key k _ r.learners) (same_entry k (key == k) refl).2

-- One more sample for the learner of `key`, which has the entry `ref`.
module _ (r : Registry) (key : Bytes) (ref : LearnerRef) (a : ℕ) (ll : LatencyLearner) (dur : ℤ)
    (v : IsValid r) (entry : lookup key r.learners ≡ some ref) (ptr : get_ll ref ≡ some a)
    (shown : get_elem? r.heap a ≡ some ll) where
  pub after2_at-set : after2_at r (some a) dur ≡ record r { heap = set r.heap a (after2 ll dur) }
  unfolding after2_at
  after2_at-set = ground arith

  named : ll.name ≡ key
  named = ground (arith, v.placed key)

  set_elsewhere :
      (o : Option LearnerRef) (k : Bytes)
      → key ≢ k
      → IsPlacedEntry r.heap o k
      → IsPlacedEntry (set r.heap a (after2 ll dur)) o k
        × (read_entry (set r.heap a (after2 ll dur)) o k ≡ read_entry r.heap o k)
  set_elsewhere none k ne h = (tt, refl)
  set_elsewhere (some e) k ne h = go (get_ll e) h
    where
      apart : (b : ℕ) → IsPlaced r.heap (some b) k → a ≢ b
      apart b h same = ne (sym named ∙ (rw (sym same, shown) at h))

      go :
          (p : Option ℕ)
          → IsPlaced r.heap p k
          → IsPlaced (set r.heap a (after2 ll dur)) p k
            × (read (set r.heap a (after2 ll dur)) p k ≡ read r.heap p k)
      go none h = absurd h
      go (some b) h = rw (get_elem?-set_ne r.heap a b (after2 ll dur) (apart b h)) (
        h,
        read_eq (set r.heap a (after2 ll dur)) r.heap b k
            (get_elem?-set_ne r.heap a b (after2 ll dur) (apart b h)),
      )

  set_here :
      (get_elem? (set r.heap a (after2 ll dur)) a ≡ some (after2 ll dur)) × (stats r key ≡ ll)
  unfolding stats
  set_here =
      (get_elem?-set_self r.heap a (after2 ll dur) (get_elem?-lt r.heap a shown), ground arith)

  after_entry :
      (k : Bytes) (b : Bool)
      → (key == k) ≡ b
      → IsPlacedEntry (set r.heap a (after2 ll dur)) (lookup k r.learners) k
        × (read_entry (set r.heap a (after2 ll dur)) (lookup k r.learners) k
            ≡ (if b then after2 (stats r k) dur else stats r k))
  unfolding after2
  after_entry k true e =
      subst
        (λ j.
          IsPlacedEntry (set r.heap a (after2 ll dur)) (lookup j r.learners) j
          × (read_entry (set r.heap a (after2 ll dur)) (lookup j r.learners) j
              ≡ after2 (stats r j) dur))
        (==_sound key k e) here
    where
      here :
          IsPlacedEntry (set r.heap a (after2 ll dur)) (lookup key r.learners) key
          × (read_entry (set r.heap a (after2 ll dur)) (lookup key r.learners) key
              ≡ after2 (stats r key) dur)
      here = ground (arith, set_here.0, set_here.1, named)
  after_entry k false e =
      unfold stats in
      set_elsewhere (lookup k r.learners) k (λ q. ground (arith, ==_iff key k)) (v.placed k)

  pub after2_at-IsValid : IsValid (after2_at r (some a) dur)
  after2_at-IsValid =
      rw after2_at-set
        (record { placed = λ k. (after_entry k (key == k) refl).0; tracked = v.tracked })

  pub stats-after2_at :
      (k : Bytes)
      → stats (after2_at r (some a) dur) k
        ≡ (if key == k then after2 (stats r k) dur else stats r k)
  stats-after2_at k = rw after2_at-set (unfold stats in (after_entry k (key == k) refl).1)
