-- ===== src/Registry/Family.antt =====
-- The samples that `handle_ssu_A` hands to learners: to one, and to the two of a family.
use latlearn.Common.{
  ℕ, ◌≡◌, refl, sym, subst, ◌∙◌, ap, ◌≢◌, ℤ, Bytes, Bool, false, not, ◌&&◌, ◌||◌, some, [], ◌++◌,
  codes, ◌==◌, ==_iff, ==_refl, if◌then◌else◌, length, get_elem?, arith, length-append,
}
use latlearn.Common.Dict.{lookup, insert, lookup-insert}
use latlearn.Learner.{LatencyLearner, after2}
use latlearn.Registry.{
  Registry, LearnerRef, vll_ref, VariantLatencyLearner, get_ll, set_variant, after2_at,
  sample_family, span_key_form,
}
use latlearn.Registry.Store.{IsValid, stats}
use latlearn.Registry.Steps.{
  set_variant-IsValid, stats-set_variant, after2_at-set, after2_at-IsValid, stats-after2_at,
}
use latlearn.Registry.Fetch.{entry_pointer}

-- One sample for the span `key` takes `r` to `s`.
pub record Sampled (r : Registry) (key : Bytes) (dur : ℤ) (s : Registry) : Type 0 where
  pub valid : IsValid s
  pub counted : (k : Bytes) → stats s k ≡ (if key == k then after2 (stats r k) dur else stats r k)
  pub entries : s.learners ≡ r.learners
  pub spans : s.tracked_spans ≡ r.tracked_spans

pub after2_at-Sampled :
    (r : Registry) (key : Bytes) (ref : LearnerRef) (a : ℕ) (dur : ℤ)
    → IsValid r
    → lookup key r.learners ≡ some ref
    → get_ll ref ≡ some a
    → Sampled r key dur (after2_at r (some a) dur)
after2_at-Sampled r key ref a dur v e p =
    let (b, ll, q, shown) = entry_pointer r key ref v e in go ll (ground arith)
  where
    go :
        (ll : LatencyLearner)
        → get_elem? r.heap a ≡ some ll
        → Sampled r key dur (after2_at r (some a) dur)
    go ll shown = record {
      valid = after2_at-IsValid r key ref a ll dur v e p shown;
      counted = stats-after2_at r key ref a ll dur v e p shown;
      entries = ap (λ (s : Registry). s.learners) (after2_at-set r key ref a ll dur v e p shown);
      spans = ap (λ (s : Registry). s.tracked_spans) (after2_at-set r key ref a ll dur v e p shown);
    }

-- The key of a variant is no span's own name: it is longer.
pub variant_key-ne :
    (name v : Bytes) → (v == []) ≡ false → span_key_form name [] ≢ span_key_form name v
unfolding span_key_form ◌==◌
variant_key-ne name v e q =
    omega (arith, ap length plain_eq, length-append {0} name (codes "(" ++ (v ++ codes ")")))
  where
    plain_eq : name ≡ name ++ (codes "(" ++ (v ++ codes ")"))
    plain_eq = ground arith

-- The spans that a sample counts for: its own, and that of its variant.
abbrev pub counts_for : Bytes → Bytes → Bytes → Bool
counts_for name v k = span_key_form name [] == k || (not (v == []) && span_key_form name v == k)

-- A sample for the learner of `pkey`, as the parent, and for that of the variant `key`.
pub record FamilySampled (r : Registry) (pkey key : Bytes) (dur : ℤ) (s : Registry) : Type 0 where
  pub valid : IsValid s
  pub counted :
      (k : Bytes)
      → stats s k ≡ (if pkey == k || key == k then after2 (stats r k) dur else stats r k)
  pub others : (k : Bytes) → key ≢ k → lookup k s.learners ≡ lookup k r.learners
  pub own : (vll : VariantLatencyLearner) × (lookup key s.learners ≡ some (vll_ref vll))
  pub spans : s.tracked_spans ≡ r.tracked_spans

module _ (r : Registry) (pkey key : Bytes) (pref : LearnerRef) (p : ℕ) (vll : VariantLatencyLearner)
    (dur : ℤ) (v : IsValid r) (parent : lookup pkey r.learners ≡ some pref)
    (ptr : get_ll pref ≡ some p) (entry : lookup key r.learners ≡ some (vll_ref vll))
    (ne : pkey ≢ key) where
  s1 : Registry
  s1 = set_variant r key (record vll { parent = some p })

  s1-entries : s1.learners ≡ insert key (vll_ref (record vll { parent = some p })) r.learners
  unfolding s1 set_variant
  s1-entries = refl

  s1-spans : s1.tracked_spans ≡ r.tracked_spans
  unfolding s1 set_variant
  s1-spans = refl

  s1-parent : lookup pkey s1.learners ≡ some pref
  s1-parent =
      rw (s1-entries, lookup-insert key pkey (vll_ref (record vll { parent = some p })) r.learners)
        (ground (arith, ==_iff key pkey))

  s1-own : lookup key s1.learners ≡ some (vll_ref (record vll { parent = some p }))
  s1-own = rw (
    s1-entries,
    lookup-insert key key (vll_ref (record vll { parent = some p })) r.learners,
    ==_refl key,
  )

  s1-IsValid : IsValid s1
  unfolding s1
  s1-IsValid = set_variant-IsValid r key vll (some p) v entry

  s2 : Sampled s1 pkey dur (after2_at s1 (some p) dur)
  s2 = after2_at-Sampled s1 pkey pref p dur s1-IsValid s1-parent ptr

  s3 :
      (a : ℕ)
      → vll.latency_learner ≡ some a
      → Sampled
          (after2_at s1 (some p) dur)
          key
          dur
          (after2_at (after2_at s1 (some p) dur) (some a) dur)
  s3 a q =
      after2_at-Sampled _ key (vll_ref (record vll { parent = some p })) a dur s2.valid
        (rw s2.entries s1-own) q

  pub sample_family-FamilySampled :
      FamilySampled r pkey key dur (sample_family r key vll (some p) dur)
  unfolding sample_family s1
  sample_family-FamilySampled =
      let (a, ll, q, shown) = entry_pointer r key (vll_ref vll) v entry in
      subst (λ o. FamilySampled r pkey key dur (after2_at (after2_at s1 (some p) dur) o dur))
        (sym q) (go a q)
    where
      go :
          (a : ℕ)
          → vll.latency_learner ≡ some a
          → FamilySampled r pkey key dur (after2_at (after2_at s1 (some p) dur) (some a) dur)
      go a q = record {
        valid = (s3 a q).valid;
        counted = λ k. ground (
          arith,
          (s3 a q).counted k,
          s2.counted k,
          stats-set_variant r key vll (some p) v entry k,
          ==_iff pkey k,
          ==_iff key k,
        );
        others = λ k ne. ground (
          arith,
          (s3 a q).entries,
          s2.entries,
          s1-entries,
          lookup-insert key k (vll_ref (record vll { parent = some p })) r.learners,
          ==_iff key k,
        );
        own =
            (record vll { parent = some p }, ground (arith, (s3 a q).entries, s2.entries, s1-own));
        spans = (s3 a q).spans ∙ s2.spans ∙ s1-spans;
      }
