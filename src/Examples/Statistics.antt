-- ===== src/Examples/Statistics.antt =====
-- The statistics of one learner and of the registry, on concrete samples.
use mathlib.Core.List.{reverse}
use mathlib.Core.List.Permᴰ
use latlearn.Registry.Reordered.{Agree, stats-run-Agree}
use latlearn.Common.{
  ◌≡◌, ◌∷◌, [], refl, pos, false, codes, not, ◌&&◌, if◌then◌else◌, All, ◌==◌, mem, ◌++◌, arith,
}
use latlearn.Common.Dict.{lookup, insert}
use latlearn.Common.Int.{◌≤ℤ◌, ◌+ℤ◌, ◌-ℤ◌, wrap64, quot}
use latlearn.Learner.{new_learner, after2, mean}
use latlearn.Learner.Samples.{Summarises, record_all, record_all-Summarises}
use latlearn.Learner.Mean.{mean-between}
use latlearn.Registry.{
  init_registry, add_spans, latency_learner, handle_ssu_a, run, span_key_form,
  spans_latlearn_builtin, time_sub,
}
use latlearn.Registry.Store.{stats}
use latlearn.Registry.Family.{counts_for}
use latlearn.Registry.Handle.{clashes, handle_ssu_a_accepts, stats-handle_ssu_a}
use latlearn.Registry.Init.{init_registry-IsValid}
use latlearn.Registry.Trace.{durations, IsApart, stats-run-Summarises}
use latlearn.Examples.{load, fast, history}

record_all-Summarises_example :
    Summarises (record_all (new_learner load) (pos 7 ∷ pos 15 ∷ [])) load (pos 7 ∷ pos 15 ∷ [])
record_all-Summarises_example = record_all-Summarises load (pos 7 ∷ pos 15 ∷ [])

mean-between_example :
    let ll = record_all (new_learner load) (pos 7 ∷ pos 15 ∷ []) in
    (ll.min ≤ℤ (mean ll).0) × ((mean ll).0 ≤ℤ ll.max)
unfolding ◌+ℤ◌
mean-between_example =
    mean-between (record_all (new_learner load) (pos 7 ∷ pos 15 ∷ [])) load (pos 7) (pos 15 ∷ [])
      (record_all-Summarises load (pos 7 ∷ pos 15 ∷ [])) (omega arith) (omega arith)

mean_of_two : (mean (record_all (new_learner load) (pos 7 ∷ pos 15 ∷ []))).0 ≡ pos 11
unfolding record_all mean after2 wrap64 ◌+ℤ◌ new_learner quot
mean_of_two = refl

history-IsApart : All (IsApart (((load ∷ []) ++ spans_latlearn_builtin) ++ [])) history
unfolding mem ◌==◌ span_key_form spans_latlearn_builtin
history-IsApart = ((refl, refl), ((refl, refl), tt))

stats-run-Summarises_example :
    Summarises (stats (run (init_registry (load ∷ [])) history) load) load (pos 7 ∷ pos 15 ∷ [])
unfolding durations time_sub ◌==◌ span_key_form ◌-ℤ◌
stats-run-Summarises_example = stats-run-Summarises (load ∷ []) [] history load history-IsApart

-- A variant whose key is an expected span is refused.
handle_ssu_a_accepts_example :
    (handle_ssu_a (init_registry (codes "load(fast)" ∷ [])) load fast (pos 30) (pos 37)).1 ≡ false
unfolding init_registry ◌==◌ span_key_form lookup add_spans spans_latlearn_builtin latency_learner
    insert
handle_ssu_a_accepts_example =
    handle_ssu_a_accepts (init_registry (codes "load(fast)" ∷ [])) load fast (pos 30) (pos 37)
      (init_registry-IsValid (codes "load(fast)" ∷ []))

stats-handle_ssu_a_example :
    stats (handle_ssu_a (init_registry (load ∷ [])) load fast (pos 30) (pos 37)).0 load ≡ (
      if not (clashes (init_registry (load ∷ [])) load fast) && counts_for load fast load
      then after2 (stats (init_registry (load ∷ [])) load) (time_sub (pos 37) (pos 30))
      else stats (init_registry (load ∷ [])) load)
stats-handle_ssu_a_example =
    stats-handle_ssu_a (init_registry (load ∷ [])) load fast (pos 30) (pos 37) load
      (init_registry-IsValid (load ∷ []))

-- The same samples in the other order.
stats-run-Agree_example :
    Agree
      (stats (run (init_registry (load ∷ [])) history) load)
      (stats (run (init_registry (load ∷ [])) (reverse history)) load)
stats-run-Agree_example =
    stats-run-Agree (load ∷ []) [] history (reverse history) load (Permᴰ.swap refl refl)
      history-IsApart
