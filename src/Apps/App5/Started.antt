-- ===== src/Apps/App5/Started.antt =====
-- Which rounds begin in example-app5.go: of no span but those of the workers that `main` starts, and
-- one at least for each of these.
use latlearn.Common.{
  ℕ, zero, suc, ◌+◌, ◌≤◌, ◌<◌, ◌≡◌, refl, subst, inl, ℤ, Bytes, Bool, true, List, [], ◌∷◌, All,
  All-append, arith,
}
use latlearn.Common.Int.{pos_part}
use latlearn.Client.{Env, World}
use latlearn.Client.Pool.Tally.{count, count-append}
use latlearn.Apps.App5.{
  Context, background, with_cancel, value, Worker, fn, Orchestration, over, makes_cancel,
  makes_timeout, starts, sleeps, reports, cancels, worker_span, seconds, start_workers, run_workers,
}
use latlearn.Apps.App5.Process.{
  Process, Move, makes_call, goes_on, breaks, another, ProcessStep, main_makes_cancel,
  main_makes_timeout, main_starts, main_sleeps, main_reports, main_cancels, timer_fires,
  worker_moves, Runs, here, step_on, worker_key, begun_in, begun_by, all_begun,
}
use latlearn.Apps.App5.Done.{hangs_on, WillCancel, Tidy, InHand, Runs-InHand}

-- A key of a context that is `P`.
abbrev pub KeyOf : (Context → Type 0) → Bytes × Bytes → Type 0
KeyOf P key = (ctx : Context) × P ctx × (key ≡ worker_key (fn ctx))

module _ {e : Env} (P : Context → Type 0) where
  known_in :
      {ended : List ℕ} {w v : World} {ws vs : List Worker} (m : Move e ended w ws vs v)
      → All (λ (worker : Worker). P worker.ctx) ws
      → All (KeyOf P) (begun_in m)
  unfolding begun_in
  known_in (makes_call ctx c k a v ws q) known = tt
  known_in (goes_on ctx ws q) known = ((ctx, known.0, refl), tt)
  known_in (breaks ctx ws q) known = tt
  known_in (another worker m) known = known_in m known.1

  known_by : {p q : Process} (s : ProcessStep e p q) → InHand P p → All (KeyOf P) (begun_by s)
  unfolding begun_by
  known_by (main_makes_cancel k q) h = tt
  known_by (main_makes_timeout timeout k q) h = tt
  known_by (main_starts ctx k q) h =
      let t : Tidy P (starts ctx k) = subst (Tidy P) q h.tidy in ((ctx, t.0, refl), tt)
  known_by (main_sleeps duration k v q r) h = tt
  known_by (main_reports k ok v q r) h = tt
  known_by (main_cancels id k q) h = tt
  known_by (timer_fires id q) h = tt
  known_by (worker_moves m) h = known_in m h.known

  pub known_rounds : {p q : Process} (r : Runs e p q) → InHand P p → All (KeyOf P) (all_begun r)
  unfolding all_begun
  known_rounds here h = tt
  known_rounds (step_on r s) h =
      All-append (KeyOf P) (all_begun r) (begun_by s) (known_rounds r h)
        (known_by s (Runs-InHand r h))

-- `main` starts `n` workers that measure `key`.
abbrev pub Starts : Bytes × Bytes → Orchestration → ℕ → Type 0
Starts key (over ok) n = n ≡ 0
Starts key (reports next) n = (ok : Bool) → Starts key (next ok) n
Starts key (makes_cancel next) n = (i : ℕ) → Starts key (next i) n
Starts key (makes_timeout timeout next) n = (i : ℕ) → Starts key (next i) n
Starts key (starts ctx next) n =
    (m : ℕ) × (n ≡ count key (worker_key (fn ctx) ∷ []) + m) × Starts key next m
Starts key (sleeps duration next) n = Starts key next n
Starts key (cancels id next) n = Starts key next n

-- What is still to be started after a step, and that the rest has begun.
abbrev Started : Bytes × Bytes → ℕ → ℕ → Orchestration → Type 0
Started key n begun main = (m : ℕ) × (n ≤ begun + m) × Starts key main m

module _ {e : Env} (key : Bytes × Bytes) where
  ProcessStep-Started :
      {p q : Process} (n : ℕ) (s : ProcessStep e p q)
      → Starts key p.main n
      → Started key n (count key (begun_by s)) q.main
  unfolding begun_by count
  ProcessStep-Started {p} n (main_makes_cancel k q) all =
      let a : Starts key (makes_cancel k) n = subst (λ m. Starts key m n) q all in
      (n, omega arith, a p.next_id)
  ProcessStep-Started {p} n (main_makes_timeout timeout k q) all =
      let a : Starts key (makes_timeout timeout k) n = subst (λ m. Starts key m n) q all in
      (n, omega arith, a p.next_id)
  ProcessStep-Started n (main_starts ctx k q) all =
      let a : Starts key (starts ctx k) n = subst (λ m. Starts key m n) q all in
      let (m, sum, rest) = a in (m, omega (arith, sum), rest)
  ProcessStep-Started n (main_sleeps duration k v q r) all =
      let a : Starts key (sleeps duration k) n = subst (λ m. Starts key m n) q all in
      (n, omega arith, a)
  ProcessStep-Started n (main_reports k ok v q r) all =
      let a : Starts key (reports k) n = subst (λ m. Starts key m n) q all in (n, omega arith, a ok)
  ProcessStep-Started n (main_cancels id k q) all =
      let a : Starts key (cancels id k) n = subst (λ m. Starts key m n) q all in (n, omega arith, a)
  ProcessStep-Started n (timer_fires id q) all = (n, omega arith, all)
  ProcessStep-Started n (worker_moves m) all = (n, omega arith, all)

  pub Runs-Started :
      {p q : Process} (n : ℕ) (r : Runs e p q)
      → Starts key p.main n
      → Started key n (count key (all_begun r)) q.main
  unfolding all_begun count
  Runs-Started n here all = (n, omega arith, all)
  Runs-Started n (step_on r s) all =
      let (m, few, rest) = Runs-Started n r all in
      let (m', few', rest') = ProcessStep-Started m s rest in
      (m', omega (arith, count-append key (all_begun r) (begun_by s)), rest')

-- The spans of `n` workers from the number `i` on.
unfoldable pub worker_keys : ℤ → ℕ → ℕ → List (Bytes × Bytes)
worker_keys task_id zero i = []
worker_keys task_id (suc n) i = (worker_span task_id i, []) ∷ worker_keys task_id n (i + 1)

start_workers-Starts :
    (key : Bytes × Bytes) (task_id timeout_secs : ℤ) (ctx : Context) (n i : ℕ)
    (next : Orchestration) (m : ℕ)
    → Starts key next m
    → Starts key
        (start_workers task_id timeout_secs ctx n i next)
        (count key (worker_keys task_id n i) + m)
unfolding start_workers worker_keys count
start_workers-Starts key task_id timeout_secs ctx zero i next m all =
    let p : m ≡ 0 + m = omega arith in subst (Starts key next) p all
start_workers-Starts key task_id timeout_secs ctx (suc n) i next m all =
    λ id2. (_, omega arith, start_workers-Starts key task_id timeout_secs ctx n (i + 1) next m all)

pub run_workers-Starts :
    (key : Bytes × Bytes) (task_id worker_qty timeout_secs cancel_secs : ℤ) (next : Orchestration)
    (m : ℕ)
    → Starts key next m
    → Starts key
        (run_workers task_id worker_qty timeout_secs cancel_secs next)
        (count key (worker_keys task_id (pos_part worker_qty) 0) + m)
unfolding run_workers
run_workers-Starts key task_id worker_qty timeout_secs cancel_secs next m all = λ id.
    start_workers-Starts key task_id timeout_secs (with_cancel id background) (pos_part worker_qty)
      0 (sleeps (seconds cancel_secs) (cancels id next)) m all

-- Every worker that is started is cancelled.
start_workers-Tidy :
    (P : Context → Type 0) (task_id timeout_secs : ℤ) (ctx : Context) (n i : ℕ)
    (next : Orchestration) (id : ℕ)
    → hangs_on id ctx ≡ true
    → WillCancel id next
    → Tidy P next
    → ((j : ℕ) (worker_ctx : Context)
        → j < i + n
        → value worker_ctx ≡ worker_span task_id j
        → P worker_ctx)
    → WillCancel id (start_workers task_id timeout_secs ctx n i next)
      × Tidy P (start_workers task_id timeout_secs ctx n i next)
unfolding start_workers
start_workers-Tidy P task_id timeout_secs ctx zero i next id on will tidy known = (will, tidy)
start_workers-Tidy P task_id timeout_secs ctx (suc n) i next id on will tidy known =
    let (later, rest) =
      start_workers-Tidy P task_id timeout_secs ctx n (i + 1) next id on will tidy
        (λ j worker_ctx few named. known j worker_ctx (omega arith) named) in
    (λ id2. later, λ id2. (known i _ (omega arith) refl, (id, ground (arith, on), later), rest))

pub run_workers-Tidy :
    (P : Context → Type 0) (task_id worker_qty timeout_secs cancel_secs : ℤ) (next : Orchestration)
    → Tidy P next
    → ((j : ℕ) (worker_ctx : Context)
        → j < pos_part worker_qty
        → value worker_ctx ≡ worker_span task_id j
        → P worker_ctx)
    → Tidy P (run_workers task_id worker_qty timeout_secs cancel_secs next)
unfolding run_workers
run_workers-Tidy P task_id worker_qty timeout_secs cancel_secs next tidy known = λ id.
    (start_workers-Tidy P task_id timeout_secs (with_cancel id background) (pos_part worker_qty) 0
      (sleeps (seconds cancel_secs) (cancels id next)) id (ground arith) (inl refl) tidy
      (λ j worker_ctx few named. known j worker_ctx (omega arith) named)).1
