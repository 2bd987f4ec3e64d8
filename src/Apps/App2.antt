-- ===== src/Apps/App2.antt =====
-- example-app2.go: a loop that leaves out its optional tasks while latlearn finds it too slow. The
-- tasks are sleeps of a random length.
use latlearn.Common.{
  ℕ, ◌+◌, ◌*◌, ◌≡◌, refl, ◌↔◌, pos, negsuc, Bytes, Bool, true, false, not, Option, none, some, List,
  [], ◌∷◌, ◌++◌, codes, if◌then◌else◌, arith,
}
use latlearn.Common.Int.{ltb_ℤ, ◌≤ℤ◌}
use latlearn.Registry.{overhead_span}
use latlearn.Report.Text.{sprint_bool}
use latlearn.State.{ReplyMsg}
use latlearn.Client.{
  set_report_fpath, set_should_report_builtins, set_should_subtract_overhead, ask_report,
  ask_values, rand_intn, sleep, Program, returns, call, ◌>>=◌, ◌>>◌, Env, World,
}
use latlearn.Client.Calm.{Calm}
use latlearn.Client.Programs.{
  call_init, call_b2, call_a, call_report, ask_for_values, for_range, measure_self_sample,
}
use latlearn.Client.Outcome.{
  Ready, Outcome, Any, and_then-Outcome, and_quietly-Outcome, returns-Outcome,
}
use latlearn.Client.Outcome.Samples.{end_fresh-Outcome}
use latlearn.Client.Outcome.Calls.{b2-Outcome, past-Outcome, quiet_calls-Outcome, assignments}
use latlearn.Client.Outcome.Loops.{
  repeated, init-Outcome, repeat-Outcome, measure_self_sample-Outcome,
}

-- 1 ms to `n` ms, in nanoseconds.
abbrev pub random_sleep : ℕ → Program (Unit {0})
random_sleep n = call (rand_intn n) >>= λ k. call (sleep (pos ((1 + k) * 1_000_000)))

abbrev pub needed_tasks : Program (Unit {0})
needed_tasks = random_sleep 25

abbrev pub optional_tasks : Program (Unit {0})
optional_tasks = random_sleep 200

-- What `should_do_optional_tasks` makes of the reply of `Values`.
unfoldable pub decide : Option ReplyMsg → Bool
decide none = true
decide (some reply) =
    if not reply.pair_ever_completed
    then true
    else (if ltb_ℤ reply.weight (pos 1)
        then true
        else (if ltb_ℤ (pos 50_000_000) reply.mean then false else true))

abbrev pub should_do_optional_tasks : Bytes → Program Bool
should_do_optional_tasks span = ask_for_values span >>= λ reply. returns (decide reply)

abbrev pub do_optional_tasks : Bool → Bytes → Program Bool
do_optional_tasks true name = should_do_optional_tasks name
do_optional_tasks false name = returns true

abbrev pub loop_variant : Bool → Bytes
loop_variant dyn_adjust = codes "dyn_adjust=" ++ sprint_bool dyn_adjust

abbrev pub engine_loop_iter : Bool → Program (Unit {0})
engine_loop_iter dyn_adjust = do
  ll ← call_b2 (codes "loop") (loop_variant dyn_adjust)
  needed_tasks
  will ← do_optional_tasks dyn_adjust ll.name
  if will then optional_tasks else returns tt
  call_a ll
  returns tt

abbrev pub engine_loop : Bool → Program (Unit {0})
engine_loop dyn_adjust = for_range 40 0 (λ i. engine_loop_iter dyn_adjust)

abbrev pub main : Program (Unit {0})
main = do
  call_init
  measure_self_sample (negsuc 0)
  engine_loop false
  engine_loop true
  call (set_report_fpath (codes "latlearn-report-dynadj.txt"))
  call (set_should_report_builtins true)
  call (set_should_subtract_overhead true)
  call_report
  returns tt

-- A reply that says that the mean of a span is over 50 ms.
abbrev pub TooSlow : Option ReplyMsg → Type 0
TooSlow none = ⊥
TooSlow (some reply) =
    (reply.pair_ever_completed ≡ true) × (pos 1 ≤ℤ reply.weight) × (pos 50_000_001 ≤ℤ reply.mean)

abbrev loop_samples : Bool → List (Bytes × Bytes)
loop_samples dyn_adjust = repeated 40 ((codes "loop", loop_variant dyn_adjust) ∷ [])

-- The optional tasks are left out exactly where `Values` replied, and its reply has a sample and a
-- mean over 50,000,000 ns.
pub decide_lem : (reply : Option ReplyMsg) → (decide reply ≡ false) ↔ TooSlow reply
unfolding decide
decide_lem none = (λ q. absurd (ground arith), λ q. absurd q)
decide_lem (some reply) =
    (λ q. (ground arith, ground arith, ground arith), λ (on, some_samples, slow). ground arith)

module _ (e : Env) where
  random_sleep-Outcome :
      (n : ℕ) (w : World) → Ready w.latlearn → Outcome e (random_sleep n) w Any []
  random_sleep-Outcome n w r = past-Outcome e (rand_intn n) w refl r λ k w r.
      past-Outcome e (sleep (pos ((1 + k) * 1_000_000))) w refl r
        λ _ w r. returns-Outcome e tt w Any r tt

  do_optional_tasks-Outcome :
      (dyn_adjust : Bool) (name : Bytes) (w : World)
      → Ready w.latlearn
      → Outcome e (do_optional_tasks dyn_adjust name) w Any []
  do_optional_tasks-Outcome true name w r =
      past-Outcome e (ask_values name) w refl r
        λ reply w r. returns-Outcome e (decide reply) w Any r tt
  do_optional_tasks-Outcome false name w r = returns-Outcome e true w Any r tt

  optional-Outcome :
      (will : Bool) (w : World)
      → Ready w.latlearn
      → Outcome e (if will then optional_tasks else returns tt) w Any []
  optional-Outcome true w r = random_sleep-Outcome 200 w r
  optional-Outcome false w r = returns-Outcome e tt w Any r tt

  engine_loop_iter-Outcome :
      (dyn_adjust : Bool) (w : World)
      → Ready w.latlearn
      → Outcome e (engine_loop_iter dyn_adjust) w Any ((codes "loop", loop_variant dyn_adjust) ∷ [])
  engine_loop_iter-Outcome dyn_adjust w r =
      and_then-Outcome e (b2-Outcome e (codes "loop") (loop_variant dyn_adjust) w r) λ ll w r b.
        and_then-Outcome e (random_sleep-Outcome 25 w r) λ _ w r _.
          and_then-Outcome e (do_optional_tasks-Outcome dyn_adjust ll.name w r) λ will w r _.
            and_then-Outcome e (optional-Outcome will w r) λ _ w r _.
              and_quietly-Outcome e
                (end_fresh-Outcome e none ll w (codes "loop") (loop_variant dyn_adjust) r b)
                λ _ w r _. returns-Outcome e tt w Any r tt

  -- `engine_loop` ends 40 samples of its loop, whatever it leaves out.
  pub engine_loop-Outcome :
      (dyn_adjust : Bool) (w : World)
      → Ready w.latlearn
      → Outcome e (engine_loop dyn_adjust) w Any (loop_samples dyn_adjust)
  engine_loop-Outcome dyn_adjust w r =
      repeat-Outcome e 40 (λ i. engine_loop_iter dyn_adjust)
        ((codes "loop", loop_variant dyn_adjust) ∷ []) w r
        (λ i v s. engine_loop_iter-Outcome dyn_adjust v s)

  -- Whatever the host, the clock, the random numbers and the turns of `serve`, `main` runs to its end
  -- from a calm latlearn, and the samples that it ends are 1,000,000 of the overhead, and 40 of each of
  -- the two loops, however many of their optional tasks they left out.
  pub whole-Outcome :
      (w : World)
      → Calm w.latlearn
      → Outcome e main w Any (
          repeated 1_000_000 ((overhead_span, []) ∷ [])
          ++ (loop_samples false ++ loop_samples true))
  whole-Outcome w calm = and_then-Outcome e (init-Outcome e [] w calm) λ _ w r _.
      and_then-Outcome e (measure_self_sample-Outcome e (negsuc 0) w r) λ _ w r _.
        and_then-Outcome e (engine_loop-Outcome false w r) λ _ w r _.
          and_quietly-Outcome e (engine_loop-Outcome true w r) λ _ w r _.
            quiet_calls-Outcome e (assignments (codes "latlearn-report-dynadj.txt") true true) w
              refl r
              λ w r.
                past-Outcome e (ask_report []) w refl r λ _ w r. returns-Outcome e tt w Any r tt
