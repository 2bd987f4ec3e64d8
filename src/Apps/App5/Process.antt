-- ===== src/Apps/App5/Process.antt =====
-- example-app5.go as it runs: `main`, its workers and the timers, one step at a time and in any order.
use latlearn.Common.{ℕ, suc, ◌≡◌, ℤ, Bytes, Bool, true, false, some, List, [], ◌∷◌, ◌++◌}
use latlearn.Client.{
  Call, ask_report, sleep, mem_chan, Answer, Program, returns, calls, Env, World, perform,
}
use latlearn.Apps.App5.{
  Context, value, is_done, Worker, fn, Orchestration, makes_cancel, makes_timeout, starts, sleeps,
  reports, cancels,
}

-- `timers` and `ended` are numbers of contexts: those made by `WithTimeout`, and those that a call of
-- `cancel` or a timer has ended.
pub record Process : Type 0 where
  pub world : World
  pub next_id : ℕ
  pub timers : List ℕ
  pub ended : List ℕ
  pub main : Orchestration
  pub workers : List Worker

module _ (e : Env) where
  -- A worker calls latlearn, or is at the end of a round and looks at its context.
  pub data Move (ended : List ℕ) (w : World) : List Worker → List Worker → World → Type 0 where
    makes_call :
        (ctx : Context) (c : Call) (k : Answer c → Program (Unit {0})) (a : Answer c) (v : World)
        (ws : List Worker)
        → perform e c w ≡ some (a, v)
        → Move ended w
            (record { ctx = ctx; rest = calls c k } ∷ ws)
            (record { ctx = ctx; rest = k a } ∷ ws)
            v
    goes_on :
        (ctx : Context) (ws : List Worker)
        → is_done ended ctx ≡ false
        → Move ended w (record { ctx = ctx; rest = returns tt } ∷ ws) (fn ctx ∷ ws) w
    breaks :
        (ctx : Context) (ws : List Worker)
        → is_done ended ctx ≡ true
        → Move ended w (record { ctx = ctx; rest = returns tt } ∷ ws) ws w
    another :
        (worker : Worker) {ws vs : List Worker} {v : World}
        → Move ended w ws vs v
        → Move ended w (worker ∷ ws) (worker ∷ vs) v

  pub data ProcessStep (p : Process) : Process → Type 0 where
    main_makes_cancel :
        (next : ℕ → Orchestration)
        → p.main ≡ makes_cancel next
        → ProcessStep p (record p { next_id = suc p.next_id; main = next p.next_id })
    main_makes_timeout :
        (timeout : ℤ) (next : ℕ → Orchestration)
        → p.main ≡ makes_timeout timeout next
        → ProcessStep p (record p {
          next_id = suc p.next_id;
          timers = p.next_id ∷ p.timers;
          main = next p.next_id;
        })
    main_starts :
        (ctx : Context) (next : Orchestration)
        → p.main ≡ starts ctx next
        → ProcessStep p (record p { main = next; workers = fn ctx ∷ p.workers })
    main_sleeps :
        (duration : ℤ) (next : Orchestration) (v : World)
        → p.main ≡ sleeps duration next
        → perform e (sleep duration) p.world ≡ some (tt, v)
        → ProcessStep p (record p { world = v; main = next })
    main_reports :
        (next : Bool → Orchestration) (ok : Bool) (v : World)
        → p.main ≡ reports next
        → perform e (ask_report []) p.world ≡ some (ok, v)
        → ProcessStep p (record p { world = v; main = next ok })
    main_cancels :
        (id : ℕ) (next : Orchestration)
        → p.main ≡ cancels id next
        → ProcessStep p (record p { ended = id ∷ p.ended; main = next })
    timer_fires :
        (id : ℕ) → mem_chan id p.timers ≡ true → ProcessStep p (record p { ended = id ∷ p.ended })
    worker_moves :
        {ws : List Worker} {v : World}
        → Move p.ended p.world p.workers ws v
        → ProcessStep p (record p { world = v; workers = ws })

  pub data Runs (p : Process) : Process → Type 0 where
    here : Runs p p
    step_on : {q r : Process} → Runs p q → ProcessStep q r → Runs p r

  pub runs_on : {p q r : Process} → Runs p q → Runs q r → Runs p r
  runs_on s here = s
  runs_on s (step_on t step) = step_on (runs_on s t) step

abbrev pub worker_key : Worker → Bytes × Bytes
worker_key worker = (value worker.ctx, [])

module _ {e : Env} where
  -- The rounds that begin, by the span and variant that they measure.
  unfoldable pub begun_in :
      {ended : List ℕ} {w v : World} {ws vs : List Worker}
      → Move e ended w ws vs v
      → List (Bytes × Bytes)
  begun_in (makes_call ctx c k a v ws q) = []
  begun_in (goes_on ctx ws q) = worker_key (fn ctx) ∷ []
  begun_in (breaks ctx ws q) = []
  begun_in (another worker m) = begun_in m

  unfoldable pub begun_by : {p q : Process} → ProcessStep e p q → List (Bytes × Bytes)
  unfolding begun_in
  begun_by (main_makes_cancel k q) = []
  begun_by (main_makes_timeout timeout k q) = []
  begun_by (main_starts ctx k q) = worker_key (fn ctx) ∷ []
  begun_by (main_sleeps duration k v q r) = []
  begun_by (main_reports k ok v q r) = []
  begun_by (main_cancels id k q) = []
  begun_by (timer_fires id q) = []
  begun_by (worker_moves m) = begun_in m

  unfoldable pub all_begun : {p q : Process} → Runs e p q → List (Bytes × Bytes)
  unfolding begun_by
  all_begun here = []
  all_begun (step_on r s) = all_begun r ++ begun_by s
