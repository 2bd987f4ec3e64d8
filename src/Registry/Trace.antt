-- ===== src/Registry/Trace.antt =====
-- The statistics after any history of samples, against the durations of the samples that the
-- history holds for each span.
use latlearn.Common.{
  ◌≡◌, refl, inl, inr, sym, ◌∙◌, ℤ, Bytes, true, false, not, ◌&&◌, List, [], ◌∷◌, ◌++◌, ◌==◌,
  ==_iff, append-nil, append_assoc, if◌then◌else◌, mem, mem-append, arith, Bool-cases, All,
}
use latlearn.Common.Dict.{lookup}
use latlearn.Learner.Samples.{record_all, Summarises, record_all-Summarises}
use latlearn.Registry.{
  Registry, Sample, run, span_key_form, time_sub, init_registry, spans_latlearn_builtin,
}
use latlearn.Registry.Store.{IsValid, stats}
use latlearn.Registry.Family.{counts_for}
use latlearn.Registry.Handle.{is_plain, clashes, handle_ssu_a-Handled}
use latlearn.Registry.Init.{init_registry-IsValid, stats-init_registry, init_registry-plains}

-- The durations of the samples that count for the span `k`, newest first.
unfoldable pub durations : Bytes → List Sample → List ℤ
durations k [] = []
durations k (s ∷ ss) =
    if counts_for s.name s.variant k then time_sub s.t2 s.t1 ∷ durations k ss else durations k ss

-- The sample names a span of the list, and the key of its variant is no span of it.
abbrev pub IsApart : List Bytes → Sample → Type 0
IsApart names s =
    (mem (span_key_form s.name []) names ≡ true)
    × ((not (s.variant == []) && mem (span_key_form s.name s.variant) names) ≡ false)

pub record Tracks (names : List Bytes) (r : Registry) (ss : List Sample) (t : Registry)
    : Type 0 where
  pub valid : IsValid t
  pub counted : (k : Bytes) → stats t k ≡ record_all (stats r k) (durations k ss)
  pub plains : (k : Bytes) → is_plain (lookup k t.learners) ≡ true → mem k names ≡ true

module _ (names : List Bytes) (r : Registry) (v : IsValid r)
    (start : (k : Bytes) → is_plain (lookup k r.learners) ≡ true → mem k names ≡ true) where
  no_clash :
      (t : Registry) (s : Sample)
      → IsApart names s
      → ((k : Bytes) → is_plain (lookup k t.learners) ≡ true → mem k names ≡ true)
      → clashes t s.name s.variant ≡ false
  no_clash t s apart plains = ground (arith, plains (span_key_form s.name s.variant))

  run-Tracks : (ss : List Sample) → All (IsApart names) ss → Tracks names r ss (run r ss)
  unfolding run durations record_all
  run-Tracks [] apart = record { valid = v; counted = λ k. refl; plains = start }
  run-Tracks (s ∷ ss) apart =
      let t = run-Tracks ss apart.1 in
      let h = handle_ssu_a-Handled (run r ss) s.name s.variant s.t1 s.t2 t.valid in
      let clear = no_clash (run r ss) s apart.0 t.plains in
      record {
        valid = h.valid;
        counted = λ k. ground (arith, h.counted k, clear, t.counted k);
        plains = λ k p. elim (Bool-cases (span_key_form s.name [] == k)) [
          | inl own ↦ ground (arith, ==_iff (span_key_form s.name []) k, apart.0.0)
          | inr other ↦
              t.plains k (h.plains k p (λ q. ground (arith, ==_iff (span_key_form s.name []) k)))
        ];
      }

-- After any history of samples, for expected spans and for those of the list `more`, in which no
-- variant's key is the name of such a span, the learner of every key `k` summarises the durations
-- of just the samples that count for `k`: those of the span `k`, or of the variant with key `k`.
pub stats-run-Summarises :
    (spans_app more : List Bytes) (ss : List Sample) (k : Bytes)
    → All (IsApart ((spans_app ++ spans_latlearn_builtin) ++ more)) ss
    → Summarises (stats (run (init_registry spans_app) ss) k) k (durations k ss)
stats-run-Summarises spans_app more ss k apart =
    rw (t.counted k, stats-init_registry spans_app k) (record_all-Summarises k (durations k ss))
  where
    expected :
        (j : Bytes)
        → is_plain (lookup j (init_registry spans_app).learners) ≡ true
        → mem j ((spans_app ++ spans_latlearn_builtin) ++ more) ≡ true
    expected j h = ground (
      arith,
      init_registry-plains spans_app j h,
      mem-append j (spans_app ++ spans_latlearn_builtin) more,
    )

    t :
        Tracks
          ((spans_app ++ spans_latlearn_builtin) ++ more)
          (init_registry spans_app)
          ss
          (run (init_registry spans_app) ss)
    t = run-Tracks _ (init_registry spans_app) (init_registry-IsValid spans_app) expected ss apart

-- Whatever the samples, those with clashing keys included, a valid registry stays valid.
pub run-IsValid : (r : Registry) (ss : List Sample) → IsValid r → IsValid (run r ss)
unfolding run
run-IsValid r [] v = v
run-IsValid r (s ∷ ss) v =
    (handle_ssu_a-Handled (run r ss) s.name s.variant s.t1 s.t2 (run-IsValid r ss v)).valid

-- After any history of samples `tracked_spans`, the order of the report's rows, begins with the
-- expected spans, the application's and then the built-in ones, in their order.
pub tracked_spans-run :
    (spans_app : List Bytes) (ss : List Sample)
    → (more : List Bytes) × ((run (init_registry spans_app) ss).tracked_spans
        ≡ (spans_app ++ spans_latlearn_builtin) ++ more)
unfolding run
tracked_spans-run spans_app [] = ([], unfold init_registry in sym (append-nil _))
tracked_spans-run spans_app (s ∷ ss) =
    let (more, e) = tracked_spans-run spans_app ss in
    let (added, f) =
      (handle_ssu_a-Handled (run (init_registry spans_app) ss) s.name s.variant s.t1 s.t2
        (run-IsValid (init_registry spans_app) ss (init_registry-IsValid spans_app))).spans in
    (more ++ added, f ∙ rw e (append_assoc (spans_app ++ spans_latlearn_builtin) more added))
