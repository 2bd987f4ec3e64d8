-- ===== src/Server/Reply.antt =====
-- The reply of `handle_msg_values`, against the statistics of its span.
use latlearn.Common.{
  refl, ℤ, pos, negsuc, length, ℕ, ◌≡◌, ◌∙◌, inl, inr, Bytes, true, List, ◌++◌, if◌then◌else◌,
  arith, Option-cases, none, some, is_some, get_elem?, All,
}
use latlearn.Common.Dict.{lookup}
use latlearn.Common.Int.{ltb_ℤ, wrap64, quot}
use latlearn.Learner.{LatencyLearner, values, mean}
use latlearn.Learner.Samples.{Summarises, IsLeast, IsGreatest, newest, sum, some_sample}
use latlearn.Registry.{
  Registry, LearnerRef, get_ll, Sample, run, span_key_form, init_registry, spans_latlearn_builtin,
}
use latlearn.Registry.Store.{IsValid, stats}
use latlearn.Registry.Fetch.{entry_pointer}
use latlearn.Registry.Init.{init_registry-IsValid}
use latlearn.Registry.Trace.{run-IsValid, durations, IsApart, stats-run-Summarises}
use latlearn.State.{CommMsg, ReplyMsg}
use latlearn.Server.{no_entry_found, reply_values, values_reply}

module _ (r : Registry) (msg : CommMsg) (v : IsValid r) where
  key : Bytes
  key = span_key_form msg.name msg.variant

  -- The reply by the entry of the key.
  values_reply-none :
      lookup key r.learners ≡ none → values_reply r msg ≡ some (no_entry_found msg key)
  unfolding values_reply key
  values_reply-none e = ground arith

  values_reply-some :
      (ref : LearnerRef)
      → lookup key r.learners ≡ some ref
      → (a : ℕ) × (ll : LatencyLearner) × (get_ll ref ≡ some a) × (get_elem? r.heap a ≡ some ll)
      → values_reply r msg ≡ some (reply_values msg (stats r key))
  unfolding values_reply stats key
  values_reply-some ref e (a, ll, p, shown) = ground arith

  -- A request for values is answered from the statistics of its key, and with the -1 values where
  -- the key has no entry; on a valid registry it never panics.
  pub values_reply-stats :
      values_reply r msg
      ≡ some (
          if is_some (lookup (span_key_form msg.name msg.variant) r.learners)
          then reply_values msg (stats r (span_key_form msg.name msg.variant))
          else no_entry_found msg (span_key_form msg.name msg.variant))
  unfolding key
  values_reply-stats = elim (Option-cases (lookup key r.learners)) [
    | inl e ↦ values_reply-none e ∙ ground arith
    | inr (ref, e) ↦ values_reply-some ref e (entry_pointer r key ref v e) ∙ ground arith
  ]

-- The reply gives the samples `ds` of the span `name`: their least, newest and greatest, the sum and the
-- count wrapped to 64 bits and their quotient, and whether there is any.
pub record Gives (reply : ReplyMsg) (ttype name : Bytes) (ds : List ℤ) : Type 0 where
  pub typed : reply.ttype ≡ ttype
  pub named : reply.name ≡ name
  pub completed : reply.pair_ever_completed ≡ some_sample ds
  pub least : IsLeast reply.min ds
  pub latest : reply.last ≡ newest ds
  pub greatest : IsGreatest reply.max ds
  pub average : reply.mean ≡ (
      if ltb_ℤ (pos 0) (wrap64 (pos (length ds)))
      then quot (wrap64 (sum ds)) (wrap64 (pos (length ds)))
      else negsuc 0)
  pub summed : reply.cumul ≡ wrap64 (sum ds)
  pub weighed : reply.weight ≡ wrap64 (pos (length ds))

Summarises-Gives :
    (ll : LatencyLearner) (name : Bytes) (ds : List ℤ) (msg : CommMsg)
    → Summarises ll name ds
    → Gives (reply_values msg ll) msg.ttype name ds
unfolding reply_values values mean
Summarises-Gives ll name ds msg s = record {
  typed = refl;
  named = s.named;
  completed = s.completed;
  least = s.least;
  latest = s.latest;
  greatest = s.greatest;
  average = rw (s.weighed, s.summed) refl;
  summed = s.summed;
  weighed = s.weighed;
}

-- After any history of samples, for expected spans and for those of the list `more`, in which no
-- variant's key is the name of such a span, a request for the values of a span that has an entry is
-- answered: the reply has the type of the message, the span's key for its name, and of the samples that
-- count for it the least, the last, the greatest, the sum and the number, both wrapped to 64 bits, for
-- the mean the quotient of these two, -1 where that number is not positive, and whether there is any.
pub values_reply-Summarises :
    (spans_app more : List Bytes) (ss : List Sample) (msg : CommMsg)
    → All (IsApart ((spans_app ++ spans_latlearn_builtin) ++ more)) ss
    → is_some
        (lookup (span_key_form msg.name msg.variant) (run (init_registry spans_app) ss).learners)
      ≡ true
    → (reply : ReplyMsg) × (values_reply (run (init_registry spans_app) ss) msg ≡ some reply)
      × Gives reply msg.ttype
          (span_key_form msg.name msg.variant)
          (durations (span_key_form msg.name msg.variant) ss)
values_reply-Summarises spans_app more ss msg apart known =
    let r = run (init_registry spans_app) ss in
    let k = span_key_form msg.name msg.variant in
    (
      reply_values msg (stats r k),
      values_reply-stats r msg
            (run-IsValid (init_registry spans_app) ss (init_registry-IsValid spans_app))
          ∙ rw known,
      Summarises-Gives (stats r k) k (durations k ss) msg
          (stats-run-Summarises spans_app more ss k apart),
    )
