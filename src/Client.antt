-- ===== src/Client.antt =====
-- An application as latlearn sees it: a program of calls, run in turns with `serve`. A program is
-- one goroutine; `serve` may take any number of messages before each of its calls.
pub mod Sends
pub mod Turns
pub mod Runs
pub mod Calm
pub mod Waits
pub mod Asks
pub mod Total
pub mod Programs
pub mod Outcome
pub mod Pool
pub mod Statistics
pub mod Drained
pub mod Reports
pub mod Started
use latlearn.Common.{
  ℕ, zero, suc, ◌%◌, ℤ, Bytes, Bool, true, false, not, ◌&&◌, ◌||◌, Option, none, some, List, [],
  ◌∷◌, ◌++◌, eqb, if◌then◌else◌, length,
}
use latlearn.State.{Latlearn, ReplyMsg}
use latlearn.Span.{SpanSampleUnderway}
use latlearn.Report.Host.{Host}
use latlearn.Server.{serve_start, serve_outer}
use latlearn.Api.{
  init2, report2, benchmarks, call_values, stop, self_sample_begun, self_sample_ended,
}
use latlearn.Api.Ending.{end_sample}
use latlearn.System.{configured}

pub data Call : Type 0 where
  now : Call
  init_spans : List Bytes → Call
  set_report_fpath : Bytes → Call
  set_should_report_builtins : Bool → Call
  set_should_subtract_overhead : Bool → Call
  end_span : Option Bytes → SpanSampleUnderway → Call
  ask_report : List Bytes → Call
  ask_benchmarks : Call
  ask_values : Bytes → Call
  ask_stop : Call
  is_init_completed : Call
  begin_self_sample : Call
  end_self_sample : Bool → Call
  rand_intn : ℕ → Call
  sleep : ℤ → Call

-- What a call returns: of `Values`, `none` for its false.
abbrev pub Answer : Call → Type 0
Answer now = ℤ
Answer (init_spans spans_app) = Unit {0}
Answer (set_report_fpath path) = Unit {0}
Answer (set_should_report_builtins b) = Unit {0}
Answer (set_should_subtract_overhead b) = Unit {0}
Answer (end_span how ssu) = SpanSampleUnderway × Bool
Answer (ask_report params) = Bool
Answer ask_benchmarks = Bool
Answer (ask_values span) = Option ReplyMsg
Answer ask_stop = Bool
Answer is_init_completed = Bool
Answer begin_self_sample = Unit {0}
Answer (end_self_sample ok) = Unit {0}
Answer (rand_intn n) = ℕ
Answer (sleep duration) = Unit {0}

pub data Program (A : Type 0) : Type 0 where
  returns : A → Program A
  calls : (c : Call) → (Answer c → Program A) → Program A

infixl 5 ◌>>=◌ ◌>>◌
abbrev pub ◌>>=◌ : {A B : Type 0} → Program A → (A → Program B) → Program B
returns a >>= f = f a
calls c k >>= f = calls c (λ a. k a >>= f)

abbrev pub ◌>>◌ : {A B : Type 0} → Program A → Program B → Program B
p >> q = p >>= λ _. q

abbrev pub call : (c : Call) → Program (Answer c)
call c = calls c returns

-- The world of a running program: the readings of `time.Now` by the program and by `serve`, and how
-- many messages `serve` takes before each call, the calls counted by `tick`; and what math/rand draws.
pub record Env : Type 0 where
  pub host : Host
  pub clock : ℕ → ℤ
  pub serve_clock : ℕ → ℕ → ℕ → ℤ
  pub turns : ℕ → ℕ
  pub rand : ℕ → ℕ

-- `ended` is the samples whose end returned true, the newest last.
pub record World : Type 0 where
  pub latlearn : Latlearn
  pub tick : ℕ
  pub ended : List SpanSampleUnderway

-- One turn of `serve`: nothing, if there is no message, it is not there, or it has finished.
unfoldable pub serve_next : Host → (ℕ → ℤ) → Latlearn → Option Latlearn
serve_next h clock l = elim l.comm_outer [
  | [] ↦ some l
  | msg ∷ rest ↦ serve_outer h clock l msg rest
]

unfoldable pub turn : Host → (ℕ → ℤ) → Latlearn → Option Latlearn
turn h clock l =
    if l.init_completed && not l.serve_finished then serve_next h clock (serve_start l) else some l

module _ (e : Env) (tick : ℕ) where
  unfoldable pub take_turns : ℕ → Latlearn → Option Latlearn
  take_turns zero l = some l
  take_turns (suc n) l = elim (turn e.host (e.serve_clock tick n) l) [
    | none ↦ none
    | some l ↦ take_turns n l
  ]

  -- A call that waits for room has it after a turn.
  unfoldable pub with_room : {A : Type 0} → (Latlearn → Option A) → Latlearn → Option A
  with_room f l = elim (f l) [
    | some a ↦ some a
    | none ↦ elim (turn e.host (e.serve_clock tick 0) l) [ none ↦ none | some l ↦ f l ]
  ]

  -- To wait for an answer: `none` where it does not come in the given number of turns.
  unfoldable pub await : {A : Type 0} → (Latlearn → Option A) → ℕ → Latlearn → Option (A × Latlearn)
  await answer zero l = elim (answer l) [ none ↦ none | some a ↦ some (a, l) ]
  await answer (suc n) l = elim (answer l) [
    | some a ↦ some (a, l)
    | none ↦ elim (turn e.host (e.serve_clock tick n) l) [ none ↦ none | some l ↦ await answer n l ]
  ]

  -- A request: refused, or answered after the messages in the queue.
  unfoldable pub ask :
      {A : Type 0}
      → (Latlearn → Option (Latlearn × Option ℕ))
      → (ℕ → Latlearn → Option A)
      → A
      → Latlearn
      → Option (A × Latlearn)
  unfolding with_room await
  ask request answer refused l = elim (with_room request l) [
    | none ↦ none
    | some (l, none) ↦ some (refused, l)
    | some (l, some chan) ↦ await (answer chan) (length l.comm_outer) l
  ]

abbrev pub mem_chan : ℕ → List ℕ → Bool
mem_chan chan [] = false
mem_chan chan (c ∷ cs) = eqb c chan || mem_chan chan cs

abbrev pub find_reply : ℕ → List (ℕ × ReplyMsg) → Option ReplyMsg
find_reply chan [] = none
find_reply chan ((c, reply) ∷ rs) = if eqb c chan then some reply else find_reply chan rs

abbrev pub done_answer : ℕ → Latlearn → Option Bool
done_answer chan l = if mem_chan chan l.done_chans then some true else none

abbrev pub reply_answer : ℕ → Latlearn → Option (Option ReplyMsg)
reply_answer chan l = elim (find_reply chan l.reply_chans) [ none ↦ none | some r ↦ some (some r) ]

-- The call itself, without a turn of `serve` before it.
unfoldable pub attempt : Env → ℕ → (c : Call) → Latlearn → Option (Answer c × Latlearn)
unfolding ask with_room
attempt e tick now l = some (e.clock tick, l)
attempt e tick (init_spans spans_app) l = some (tt, init2 l spans_app (e.clock tick))
attempt e tick (set_report_fpath path) l = some (
  tt,
  configured l l.outer_queue_capacity l.inner_queue_capacity l.should_report_builtins
      l.should_subtract_overhead path,
)
attempt e tick (set_should_report_builtins b) l = some (
  tt,
  configured l l.outer_queue_capacity l.inner_queue_capacity b l.should_subtract_overhead
      l.report_fpath,
)
attempt e tick (set_should_subtract_overhead b) l = some (
  tt,
  configured l l.outer_queue_capacity l.inner_queue_capacity l.should_report_builtins b
      l.report_fpath,
)
attempt e tick (end_span how ssu) l =
    elim (with_room e tick (λ l. end_sample how l ssu (e.clock tick)) l) [
      | none ↦ none
      | some (l, ssu, ok) ↦ some ((ssu, ok), l)
    ]
attempt e tick (ask_report params) l = ask e tick (λ l. report2 l params) done_answer false l
attempt e tick ask_benchmarks l = ask e tick benchmarks done_answer false l
attempt e tick (ask_values span) l = ask e tick (λ l. call_values l span) reply_answer none l
attempt e tick ask_stop l = elim (with_room e tick stop l) [
  | none ↦ none
  | some (l, ok) ↦ some (ok, l)
]
attempt e tick is_init_completed l = some (l.init_completed, l)
attempt e tick begin_self_sample l = some (tt, self_sample_begun l)
attempt e tick (end_self_sample ok) l = some (tt, self_sample_ended ok l)
attempt e tick (rand_intn n) l = some (e.rand tick % n, l)
attempt e tick (sleep duration) l = some (tt, l)

-- The samples that a call ends.
abbrev pub ended_by : (c : Call) → Answer c → List SpanSampleUnderway
ended_by (end_span how ssu) (ssu', ok) = if ok then ssu' ∷ [] else []
ended_by _ _ = []

unfoldable pub perform : Env → (c : Call) → World → Option (Answer c × World)
unfolding take_turns attempt
perform e c w = elim (take_turns e w.tick (e.turns w.tick) w.latlearn) [
  | none ↦ none
  | some l ↦ elim (attempt e w.tick c l) [
    | none ↦ none
    | some (a, l) ↦
        some (a, record { latlearn = l; tick = suc w.tick; ended = w.ended ++ ended_by c a })
  ]
]

unfoldable pub run : {A : Type 0} → Env → Program A → World → Option (A × World)
run e (returns a) w = some (a, w)
run e (calls c k) w = elim (perform e c w) [ none ↦ none | some (a, w) ↦ run e (k a) w ]
