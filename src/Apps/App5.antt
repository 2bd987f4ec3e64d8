-- ===== src/Apps/App5.antt =====
-- example-app5.go: its contexts, its workers, which are measured round by round, and what `main` does.
-- A timer of package context may fire at any moment.
pub mod Process
pub mod Rounds
pub mod Done
pub mod Rest
pub mod Finish
pub mod Started
pub mod Answered
pub mod Main
pub mod Spans
pub mod Report
use latlearn.Common.{
  ℕ, zero, suc, ◌+◌, ◌-◌, ◌*◌, ℤ, pos, negsuc, Bytes, Bool, true, false, ◌||◌, List, [], ◌++◌,
  codes,
}
use latlearn.Common.Int.{wrap64, pos_part}
use latlearn.Report.Text.{sprint_d}
use latlearn.Client.{
  set_report_fpath, set_should_report_builtins, set_should_subtract_overhead, sleep, mem_chan,
  Program, returns, call, ◌>>=◌, ◌>>◌,
}
use latlearn.Client.Programs.{call_init, call_b, call_a, measure_self_sample}

-- A context that can end by itself has a number; a value is that of `SpanKeyFn2`, the one key in use.
pub data Context : Type 0 where
  background : Context
  with_cancel : (id : ℕ) → (parent : Context) → Context
  with_timeout : (id : ℕ) → (parent : Context) → Context
  with_value : (span_name : Bytes) → (parent : Context) → Context

-- `ctx.Value( SpanKeyFn2 {}).( string)`, the text "" where there is none.
abbrev pub value : Context → Bytes
value background = []
value (with_cancel id parent) = value parent
value (with_timeout id parent) = value parent
value (with_value span_name parent) = span_name

-- `context.Cause( ctx) != nil`, where the contexts `ended` have ended by themselves: a context ends
-- with its parent.
unfoldable pub is_done : List ℕ → Context → Bool
is_done ended background = false
is_done ended (with_cancel id parent) = mem_chan id ended || is_done ended parent
is_done ended (with_timeout id parent) = mem_chan id ended || is_done ended parent
is_done ended (with_value span_name parent) = is_done ended parent

-- One round of the loop of `fn`, of a span that lasts 10 ms, up to its look at the context.
abbrev pub round : Bytes → Program (Unit {0})
round span_name = do ll ← call_b span_name; call (sleep (pos 10_000_000)); call_a ll; returns tt

-- A goroutine `fn( ctx)`, with what is left of its round.
pub record Worker : Type 0 where
  pub ctx : Context
  pub rest : Program (Unit {0})

abbrev pub fn : Context → Worker
fn ctx = record { ctx = ctx; rest = round (value ctx) }

-- What `main` does while workers may run, up to its call of `Stop`. A new context is known by its
-- number, and the last report has an answer.
pub data Orchestration : Type 0 where
  over : (ok : Bool) → Orchestration
  reports : (Bool → Orchestration) → Orchestration
  makes_cancel : (ℕ → Orchestration) → Orchestration
  makes_timeout : (timeout : ℤ) → (ℕ → Orchestration) → Orchestration
  starts : Context → Orchestration → Orchestration
  sleeps : (duration : ℤ) → Orchestration → Orchestration
  cancels : (id : ℕ) → Orchestration → Orchestration

-- `time.Duration( n) * time.Second`
unfoldable pub seconds : ℤ → ℤ
seconds (pos n) = wrap64 (pos (n * 1_000_000_000))
seconds (negsuc n) = wrap64 (negsuc (suc n * 1_000_000_000 - 1))

-- The span of a worker.
abbrev pub worker_span : ℤ → ℕ → Bytes
worker_span task_id i = codes "task-" ++ sprint_d task_id ++ codes "/worker-" ++ sprint_d (pos i)

-- The loop of `run_workers`, with `n` workers to start from the number `i` on.
unfoldable pub start_workers : ℤ → ℤ → Context → ℕ → ℕ → Orchestration → Orchestration
start_workers task_id timeout_secs ctx zero i next = next
start_workers task_id timeout_secs ctx (suc n) i next = makes_timeout (seconds timeout_secs) λ id2.
    let ctx2 = with_timeout id2 ctx in
    let ctx3 = with_value (worker_span task_id i) ctx2 in
    starts ctx3 (start_workers task_id timeout_secs ctx n (i + 1) next)

unfoldable pub run_workers : ℤ → ℤ → ℤ → ℤ → Orchestration → Orchestration
run_workers task_id worker_qty timeout_secs cancel_secs next = makes_cancel λ id.
    let ctx = with_cancel id background in
    start_workers task_id timeout_secs ctx (pos_part worker_qty) 0
      (sleeps (seconds cancel_secs) (cancels id next))

-- `main` until it runs its workers.
abbrev pub main_before : Program Bool
main_before = do
  call_init
  call (set_report_fpath (codes "latlearn-report-app5.txt"))
  call (set_should_report_builtins false)
  call (set_should_subtract_overhead true)
  measure_self_sample (negsuc 0)

-- The deferred function of `main`, up to its call of `Stop`.
abbrev pub main_deferred : Orchestration
main_deferred = reports over

abbrev pub main_workers : Orchestration
main_workers =
    run_workers (pos 537) (pos 10) (pos 20) (pos 40)
      (run_workers (pos 296) (pos 5) (pos 40) (pos 20) main_deferred)
