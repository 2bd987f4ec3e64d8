-- ===== src/Registry/Handle.antt =====
-- `handle_ssu_A` on a valid registry: which samples count, and for which spans.
use latlearn.Common.{
  ℕ, ◌≡◌, refl, sym, ◌∙◌, ◌≢◌, inl, inr, ℤ, Bytes, Bool, true, false, not, ◌&&◌, Option, none, some,
  List, [], ◌∷◌, ◌++◌, ◌==◌, ==_iff, if◌then◌else◌, arith, Bool-cases, append_assoc,
}
use latlearn.Common.Dict.{lookup}
use latlearn.Learner.{after2}
use latlearn.Registry.{
  Registry, LearnerRef, ll_ref, vll_ref, VariantLatencyLearner, get_ll, tracked_learner,
  tracked_variant, after2_at, sample_family, span_key_form, variant_sample, plain_sample,
  handle_ssu_a, time_sub,
}
use latlearn.Registry.Store.{IsValid, stats}
use latlearn.Registry.Steps.{tracked_variant_clash}
use latlearn.Registry.Fetch.{Fetched, fetch_learner, fetch_variant}
use latlearn.Registry.Family.{
  after2_at-Sampled, FamilySampled, sample_family-FamilySampled, variant_key-ne, counts_for,
}

abbrev pub is_plain : Option LearnerRef → Bool
is_plain none = false
is_plain (some (ll_ref a)) = true
is_plain (some (vll_ref v)) = false

-- The key of the variant has the entry of a plain span.
abbrev pub clashes : Registry → Bytes → Bytes → Bool
clashes r name v = not (v == []) && is_plain (lookup (span_key_form name v) r.learners)

-- What a sample of length `dur` for the span `name` with variant `v` does to the registry.
pub record Handled (r : Registry) (name v : Bytes) (dur : ℤ) (res : Registry × Bool) : Type 0 where
  pub valid : IsValid res.0
  pub accepted : res.1 ≡ not (clashes r name v)
  pub counted :
      (k : Bytes)
      → stats res.0 k ≡ (
          if not (clashes r name v) && counts_for name v k
          then after2 (stats r k) dur
          else stats r k)
  pub plains :
      (k : Bytes)
      → is_plain (lookup k res.0.learners) ≡ true
      → span_key_form name [] ≢ k
      → is_plain (lookup k r.learners) ≡ true
  pub spans : (more : List Bytes) × (res.0.tracked_spans ≡ r.tracked_spans ++ more)

is_plain-eq : (o : Option LearnerRef) → is_plain o ≡ true → (a : ℕ) × (o ≡ some (ll_ref a))
is_plain-eq none h = ground arith
is_plain-eq (some (ll_ref a)) h = (a, refl)
is_plain-eq (some (vll_ref v)) h = ground arith

plain_sample_step :
    (r s : Registry) (name : Bytes) (dur : ℤ) (a : ℕ)
    → tracked_learner r (span_key_form name []) ≡ (s, some a)
    → plain_sample r name dur ≡ (after2_at s (some a) dur, true)
unfolding plain_sample
plain_sample_step r s name dur a e = ground arith

plain_sample-Handled :
    (r : Registry) (name : Bytes) (dur : ℤ)
    → IsValid r
    → Handled r name [] dur (plain_sample r name dur)
unfolding ◌==◌
plain_sample-Handled r name dur v =
    let (s, ref, a, e, p, f) = fetch_learner r (span_key_form name []) v in
    rw (plain_sample_step r s name dur a e) (go s ref a p f)
  where
    go :
        (s : Registry) (ref : LearnerRef) (a : ℕ)
        → get_ll ref ≡ some a
        → Fetched r (span_key_form name []) ref s
        → Handled r name [] dur (after2_at s (some a) dur, true)
    go s ref a p f =
        let t = after2_at-Sampled s (span_key_form name []) ref a dur f.valid f.entry p in
        record {
          valid = t.valid;
          accepted = refl;
          counted = λ k. ground (arith, t.counted k, f.same k);
          plains = λ k h ne. ground (arith, t.entries, f.others k);
          spans = (f.spans.0, t.spans ∙ f.spans.1);
        }

variant_sample_step :
    (r s u : Registry) (name v : Bytes) (dur : ℤ) (p : ℕ) (vll : VariantLatencyLearner)
    → tracked_learner r (span_key_form name []) ≡ (s, some p)
    → tracked_variant s (span_key_form name v) ≡ (u, some vll)
    → variant_sample r name v dur ≡ (sample_family u (span_key_form name v) vll (some p) dur, true)
unfolding variant_sample
variant_sample_step r s u name v dur p vll e f = ground arith

variant_sample_dropped :
    (r s : Registry) (name v : Bytes) (dur : ℤ) (p : ℕ)
    → tracked_learner r (span_key_form name []) ≡ (s, some p)
    → tracked_variant s (span_key_form name v) ≡ (s, none)
    → variant_sample r name v dur ≡ (s, false)
unfolding variant_sample
variant_sample_dropped r s name v dur p e f = ground arith

module _ (r : Registry) (name v : Bytes) (dur : ℤ) (valid : IsValid r)
    (some_variant : (v == []) ≡ false) where
  pkey : Bytes
  pkey = span_key_form name []

  key : Bytes
  key = span_key_form name v

  key_ne : pkey ≢ key
  unfolding pkey key
  key_ne = variant_key-ne name v some_variant

  -- The variant's key has a plain entry: the sample is dropped, though the parent is tracked.
  dropped :
      (s : Registry) (pref : LearnerRef) (p a : ℕ)
      → tracked_learner r pkey ≡ (s, some p)
      → Fetched r pkey pref s
      → lookup key r.learners ≡ some (ll_ref a)
      → Handled r name v dur (variant_sample r name v dur)
  unfolding pkey key
  dropped s pref p a e f clash =
      rw
        (variant_sample_dropped r s name v dur p e
          (tracked_variant_clash s key a (f.others key key_ne ∙ clash)))
        (record {
          valid = f.valid;
          accepted = ground arith;
          counted = λ k. ground (arith, f.same k);
          plains = λ k h ne. ground (arith, f.others k ne);
          spans = f.spans;
        })

  kept :
      (s u : Registry) (pref : LearnerRef) (p : ℕ) (vll : VariantLatencyLearner)
      → tracked_learner r pkey ≡ (s, some p)
      → get_ll pref ≡ some p
      → Fetched r pkey pref s
      → tracked_variant s key ≡ (u, some vll)
      → Fetched s key (vll_ref vll) u
      → is_plain (lookup key r.learners) ≡ false
      → Handled r name v dur (variant_sample r name v dur)
  unfolding pkey key
  kept s u pref p vll e ptr f e2 g clear =
      rw (variant_sample_step r s u name v dur p vll e e2) (record {
        valid = t.valid;
        accepted = ground arith;
        counted = λ k. ground (arith, t.counted k, g.same k, f.same k);
        plains = λ k h ne. elim (Bool-cases (key == k)) [
          | inl same ↦ ground (arith, t.own.1, ==_iff key k)
          | inr other ↦ ground (arith, t.others k, g.others k, f.others k ne, ==_iff key k)
        ];
        spans = (
          f.spans.0 ++ g.spans.0,
          t.spans ∙ g.spans.1 ∙ rw f.spans.1 (append_assoc r.tracked_spans f.spans.0 g.spans.0),
        );
      })
    where
      t : FamilySampled u pkey key dur (sample_family u key vll (some p) dur)
      t =
          sample_family-FamilySampled u pkey key pref p vll dur g.valid
            (g.others pkey (λ q. key_ne (sym q)) ∙ f.entry) ptr g.entry key_ne

  variant_sample-Handled : Handled r name v dur (variant_sample r name v dur)
  unfolding pkey key
  variant_sample-Handled =
      let (s, pref, p, e, ptr, f) = fetch_learner r pkey valid in
      elim (Bool-cases (is_plain (lookup key r.learners))) [
        | inl clash ↦
            let (a, c) = is_plain-eq (lookup key r.learners) clash in dropped s pref p a e f c
        | inr clear ↦
            let (u, vll, e2, g) =
              fetch_variant s key f.valid (λ a q. ground (arith, f.others key key_ne)) in
            kept s u pref p vll e ptr f e2 g clear
      ]

-- All that `handle_ssu_A` does to a valid registry.
pub handle_ssu_a-Handled :
    (r : Registry) (name v : Bytes) (t1 t2 : ℤ)
    → IsValid r
    → Handled r name v (time_sub t2 t1) (handle_ssu_a r name v t1 t2)
handle_ssu_a-Handled r name [] t1 t2 valid =
    unfold handle_ssu_a ◌==◌ in plain_sample-Handled r name (time_sub t2 t1) valid
handle_ssu_a-Handled r name (b ∷ v) t1 t2 valid =
    unfold handle_ssu_a ◌==◌ in
    variant_sample-Handled r name (b ∷ v) (time_sub t2 t1) valid (unfold ◌==◌ in refl)

-- `handle_ssu_A` keeps the registry valid: each entry of `learners` points to a learner of its
-- key's name, and `tracked_spans` holds just the keys of `learners`.
pub handle_ssu_a-IsValid :
    (r : Registry) (name v : Bytes) (t1 t2 : ℤ)
    → IsValid r
    → IsValid (handle_ssu_a r name v t1 t2).0
handle_ssu_a-IsValid r name v t1 t2 valid = (handle_ssu_a-Handled r name v t1 t2 valid).valid

-- On a valid registry `handle_ssu_A` returns true exactly when there is no variant or the key of
-- the variant has no entry of a plain span.
pub handle_ssu_a_accepts :
    (r : Registry) (name v : Bytes) (t1 t2 : ℤ)
    → IsValid r
    → (handle_ssu_a r name v t1 t2).1 ≡ not (clashes r name v)
handle_ssu_a_accepts r name v t1 t2 valid = (handle_ssu_a-Handled r name v t1 t2 valid).accepted

-- On a valid registry a sample that is accepted is added to the learner of its span and, if it has
-- a variant, to the learner of the variant, and to no other; one that is refused to none.
pub stats-handle_ssu_a :
    (r : Registry) (name v : Bytes) (t1 t2 : ℤ) (k : Bytes)
    → IsValid r
    → stats (handle_ssu_a r name v t1 t2).0 k ≡ (
        if not (clashes r name v) && counts_for name v k
        then after2 (stats r k) (time_sub t2 t1)
        else stats r k)
stats-handle_ssu_a r name v t1 t2 k valid = (handle_ssu_a-Handled r name v t1 t2 valid).counted k
