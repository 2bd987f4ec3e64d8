-- ===== src/Apps/App5/Rounds.antt =====
-- How many samples the workers of example-app5.go end: one in each round, whatever the order in which
-- they run.
use latlearn.Common.{
  ℕ, ◌+◌, ◌≤◌, ◌≡◌, refl, sym, ap, subst, ◌∙◌, pos, Bytes, none, List, [], ◌∷◌, arith,
}
use mathlib.Core.List.{map}
use latlearn.Span.{ssu_before}
use latlearn.Client.{now, ask_report, sleep, returns, calls, end_span, Env, World}
use latlearn.Client.Outcome.{Ready, samples}
use latlearn.Client.Pool.Tally.{count, count-append, counted, Gained, Gained-none, Gained-sum}
use latlearn.Client.Pool.Owed.{Owes, quiet-Owes, end-Owes, before-Begun}
use latlearn.Apps.App5.{value, round, Worker, fn}
use latlearn.Apps.App5.Process.{
  Process, Move, makes_call, goes_on, breaks, another, ProcessStep, main_makes_cancel,
  main_makes_timeout, main_starts, main_sleeps, main_reports, main_cancels, timer_fires,
  worker_moves, Runs, here, step_on, worker_key, begun_in, begun_by, all_begun,
}

module _ (e : Env) (key : Bytes × Bytes) where
  abbrev one : Worker → ℕ
  one worker = count key (worker_key worker ∷ [])

  round-Owes :
      (span_name : Bytes)
      → Owes e (counted key) (round span_name) (count key ((span_name, []) ∷ []))
  round-Owes span_name =
      let n = count key ((span_name, []) ∷ []) in
      let none_after : n + 0 ≡ n = omega arith in
      quiet-Owes e (counted key) now
        (λ t.
          calls (sleep (pos 10_000_000))
            (λ _. calls (end_span none (ssu_before span_name [] t)) (λ a. returns tt)))
        n refl
        (λ t.
          quiet-Owes e (counted key) (sleep (pos 10_000_000))
            (λ _. calls (end_span none (ssu_before span_name [] t)) (λ a. returns tt)) n refl
            (λ _.
              subst
                (Owes e (counted key)
                  (calls (end_span none (ssu_before span_name [] t)) (λ a. returns tt)))
                none_after
                (end-Owes e (counted key) span_name [] (ssu_before span_name [] t) (λ a. returns tt)
                  n 0 (before-Begun e (counted key) span_name [] t) refl (λ a. refl))))

  -- What the workers have still to end in their rounds, each one sample of its own span at most.
  abbrev pub AllOwing : List Worker → ℕ → Type 0
  AllOwing [] n = n ≡ 0
  AllOwing (worker ∷ ws) n =
      (i : ℕ) × (j : ℕ) × (n ≡ i + j)
      × Owes e (counted key) worker.rest i
      × (i ≤ one worker)
      × AllOwing ws j

  AllOwing-le : (ws : List Worker) (n : ℕ) → AllOwing ws n → n ≤ count key (map worker_key ws)
  unfolding count
  AllOwing-le [] n none_owed = omega (arith, none_owed)
  AllOwing-le (worker ∷ ws) n (i, j, sum, owes, few, rest) =
      omega (arith, sum, few, AllOwing-le ws j rest)

  started :
      (worker : Worker) (ws : List Worker) (n : ℕ)
      → Owes e (counted key) worker.rest (one worker)
      → AllOwing ws n
      → AllOwing (worker ∷ ws) (one worker + n)
  started worker ws n owes rest = (one worker, n, refl, owes, omega arith, rest)

  -- From what is owed, with the samples of the rounds that begin, to what is gained and owed then.
  abbrev Pays : World → ℕ → ℕ → World → List Worker → Type 0
  Pays w n begun v vs =
      (i : ℕ) × (j : ℕ) × (n + begun ≡ i + j) × Gained (counted key) w i v × AllOwing vs j

  Move-Pays :
      {ended : List ℕ} {w v : World} {ws vs : List Worker} (n : ℕ) (m : Move e ended w ws vs v)
      → Ready w.latlearn
      → AllOwing ws n
      → Pays w n (count key (begun_in m)) v vs
  unfolding begun_in count
  Move-Pays {w = w} n (makes_call ctx c k a v ws q) ready (i, j, sum, owes, few, rest) =
      let (i', j', sum', gained, later) = owes.1 w v a ready q in
      (i', j' + j, omega arith, gained, (j', j, refl, later, omega arith, rest))
  Move-Pays {w = w} n (goes_on ctx ws q) ready (i, j, sum, owes, few, rest) = (
    0,
    one (fn ctx) + j,
    omega (arith, owes),
    Gained-none (counted key) w ready,
    started (fn ctx) ws j (round-Owes (value ctx)) rest,
  )
  Move-Pays {w = w} n (breaks ctx ws q) ready (i, j, sum, owes, few, rest) =
      (0, j, omega (arith, owes), Gained-none (counted key) w ready, rest)
  Move-Pays n (another worker m) ready (i, j, sum, owes, few, rest) =
      let (i', j', sum', gained, later) = Move-Pays j m ready rest in
      (i', i + j', omega arith, gained, (i, j', refl, owes, few, later))

  ProcessStep-Pays :
      {p q : Process} (n : ℕ) (s : ProcessStep e p q)
      → Ready p.world.latlearn
      → AllOwing p.workers n
      → Pays p.world n (count key (begun_by s)) q.world q.workers
  unfolding begun_by count
  ProcessStep-Pays {p} n (main_makes_cancel k q) ready owing =
      (0, n, omega arith, Gained-none (counted key) p.world ready, owing)
  ProcessStep-Pays {p} n (main_makes_timeout timeout k q) ready owing =
      (0, n, omega arith, Gained-none (counted key) p.world ready, owing)
  ProcessStep-Pays {p} n (main_starts ctx k q) ready owing = (
    0,
    one (fn ctx) + n,
    omega arith,
    Gained-none (counted key) p.world ready,
    started (fn ctx) p.workers n (round-Owes (value ctx)) owing,
  )
  ProcessStep-Pays {p} n (main_sleeps duration k v q r) ready owing =
      let owes = quiet-Owes e (counted key) (sleep duration) returns 0 refl (λ a. refl) in
      let (i, j, sum, gained, later) = owes.1 p.world v tt ready r in
      (i, n, omega (arith, later), gained, owing)
  ProcessStep-Pays {p} n (main_reports k ok v q r) ready owing =
      let owes = quiet-Owes e (counted key) (ask_report []) (λ ok. returns tt) 0 refl (λ a. refl) in
      let (i, j, sum, gained, later) = owes.1 p.world v ok ready r in
      (i, n, omega (arith, later), gained, owing)
  ProcessStep-Pays {p} n (main_cancels id k q) ready owing =
      (0, n, omega arith, Gained-none (counted key) p.world ready, owing)
  ProcessStep-Pays {p} n (timer_fires id q) ready owing =
      (0, n, omega arith, Gained-none (counted key) p.world ready, owing)
  ProcessStep-Pays {p} n (worker_moves m) ready owing = Move-Pays n m ready owing

  pub Runs-Pays :
      {p q : Process} (n : ℕ) (r : Runs e p q)
      → Ready p.world.latlearn
      → AllOwing p.workers n
      → Pays p.world n (count key (all_begun r)) q.world q.workers
  unfolding all_begun count
  Runs-Pays {p} n here ready owing =
      (0, n, omega arith, Gained-none (counted key) p.world ready, owing)
  Runs-Pays {p} n (step_on {q} {r} rs s) ready owing =
      let (i, j, sum, gained, later) = Runs-Pays n rs ready owing in
      let (i', j', sum', gained', last) = ProcessStep-Pays j s gained.ready later in
      (
        i + i',
        j',
        omega (arith, count-append key (all_begun rs) (begun_by s)),
        Gained-sum (counted key) p.world q.world r.world i i' gained gained',
        last,
      )

-- Whatever the order in which `main`, its workers and the timers run, from an initialised and calm
-- latlearn and without workers: of each span and variant no more samples are ended than rounds of it
-- have begun, and no fewer than those rounds less one for each worker of it that still runs.
pub samples-rounds :
    (e : Env) (key : Bytes × Bytes) (p q : Process) (r : Runs e p q)
    → Ready p.world.latlearn
    → p.workers ≡ []
    → (count key (samples q.world) ≤ count key (samples p.world) + count key (all_begun r))
      × (count key (samples p.world) + count key (all_begun r)
          ≤ count key (samples q.world) + count key (map worker_key q.workers))
samples-rounds e key p q r ready none_yet =
    let owing : AllOwing e key p.workers 0 =
      subst (λ ws. AllOwing e key ws 0) (sym none_yet) refl in
    let (i, j, sum, gained, left) = Runs-Pays e key 0 r ready owing in
    let same : count key (samples q.world) ≡ count key (samples p.world) + i =
      ap (count key) gained.ended
      ∙ count-append key (samples p.world) gained.new
      ∙ ap (λ n. count key (samples p.world) + n) gained.amount in
    (omega arith, omega (arith, AllOwing-le e key q.workers j left))
