-- ===== src/Lib.antt =====
-- latlearn, a Go package that measures the latency of the spans of a program: latlearn/latlearn.go.
--
-- An application calls `Init`, begins a sample of a span with `B` or `B2` and ends it with `A` or
-- `A2`. The end sends a message through the channel `comm_outer` to the one goroutine `serve`, which
-- alone owns the statistics, the map `learners` and the report order `tracked_spans`. `Values`,
-- `Report`, `Benchmarks` and `Stop` are messages to `serve` too, with a channel for the answer.
--
-- Files and what they model of latlearn/latlearn.go:
-- - Common: tests, lists, association lists, and integers of 64 bits, shared by all parts.
-- - Learner: `latencyLearner` with `after2`, `mean` and `values`. Learner/Samples describes what a
--   learner holds by the list of its samples, newest first.
-- - Registry: `learners`, `tracked_spans`, `latency_learner`, `variant_latency_learner`,
--   `span_key_form`, `handle_ssu_A`, and what `init_inner` makes of them. Registry/Store has the
--   invariant `IsValid` and `stats`, the statistics of a key; Steps, Fetch, Family and Handle follow
--   the parts of `handle_ssu_A`; Init is `init_inner`, and Trace and Reordered are about histories of
--   samples.
-- - State: the messages, and the package variables as one record, `Latlearn`.
-- - Span: `SpanSampleUnderway` with `before`, `after`, `B`, `B2` and `after_and_update`.
-- - Report: the text of the report: numbers (`number_grouped`), `overhead_comp`, the lines on the
--   host, a row (`report` of a learner), and `report_inner`; Figures is about the times in a row,
--   and Columns about where the bars between its columns stand; Columns/Read reads the numbers between
--   them back, and Columns/Shown compares these with the samples.
-- - Benchmarks: `benchmarks_inner` and `benchmark_exec`.
-- - Server: `handle_comm_msg`, its handlers, and one round of the loop of `serve` for each channel.
--   Handlers, Reply, Effect and Frame say what the handlers do to each part of the state, with the
--   parts themselves in Own and Controls.
-- - Api: `Init`, `Init2`, `A`, `A2`, `Report`, `Report2`, `Benchmarks`, `Values` (`call_values`),
--   `Overhead`, `Stop` and `Latency_measure_self_sample`.
-- - System: the application's goroutines and `serve` together, as the step relation `Step` and the
--   states that it reaches, `Reach`; Invariant, Numbered, Order, Answers, Progress, Statistics and
--   Stopped are about all their runs, and Late adds to these the sends that come after `serve` has finished.
-- - Client: an application's goroutine as a program of calls, which `run` takes in turns with `serve`.
--   Programs has the calls as they are written; Sends, Turns and Runs make of a run one of the process,
--   and Statistics goes on to what it leaves in the learners; Calm, Waits, Asks and Total are about
--   waiting; Started, Drained and Reports are about what a report finds and writes; Outcome is about
--   the answer of a program and the samples that it ends, and Pool about several goroutines.
-- - Apps: the programs of example-app1.go to example-app5.go, in App1 to App5. App5/Process is
--   example-app5.go as it runs, and the modules beside it are about its rounds and how it ends.
-- - Examples: concrete runs.
--
-- How the code is read:
-- * A string is the list of its bytes. `strings.Split( s, "")` and `strings.TrimSpace` are those for
--   ASCII texts, which is all that they are given here but for the output of sysctl; the padding of
--   fmt counts the characters of valid UTF-8.
-- * An int, an int64 and a time.Duration are integers that wrap at 64 bits where the code adds or
--   subtracts; a time.Time is the nanoseconds since the zero time, and `t2.Sub( t1)` saturates as
--   documented.
-- * A reading of `time.Now` is an argument. Where a function takes several, `clock i` is the `i`th.
-- * A pointer to a `latencyLearner` is a place in `heap`, so that two entries could share one; a
--   `variantLatencyLearner` is stored under the one key that points to it.
-- * A call of the application is one step of `Step`: its guard and its send. In the code a call that has
--   passed its guard may send after `serve` has finished; `Step` has no such send, and `LateReach` of
--   System/Late does. Where the channel is full the function gives `none`, and the call has no step
--   until there is room. A call that waits for an answer gives the number of its fresh channel, whose
--   answer is in `done_chans` or `reply_chans`.
-- * In `serve` and the report `none` is a panic, at a nil pointer. The files written are in `files`.
-- * Decimal digits and groups of thousands are computed on fuel: `n + 1` rounds for the number `n`,
--   which each round divides by ten or more.
-- * The record `Host` holds what the report reads of package runtime, the environment, sysctl,
--   `os.Create`, and the float of the time fraction.
-- * In a run of a program `serve` may take any number of messages before each call, as `Env` says; a
--   call that has to wait for room is tried again, guard included, after one turn of `serve`; in the code
--   it is past its guard, which differs only where a stop is in the queue. The wait for an answer takes
--   as many turns as there are messages in the queue, its own being the last. `none` is a call that
--   waits for ever. A calm latlearn is one of the invariant in which `serve` has not finished, no stop
--   is in the queue and, once it is initialised, the queue can hold a message.
-- * In `Interleaving` a call with its whole wait for the answer is one step, so that no other goroutine
--   sends while it waits. `latency_measure_self_sample` runs its loop with no step of `serve` in between;
--   `measure_self_sample` has them.
-- * A sleep changes nothing, and a number that math/rand draws is a parameter. A panic in
--   example-app4.go is a result of the function that panics, given after its deferred calls.
-- * A context of example-app5.go that can end by itself has a number, and a timer of package context
--   may fire at any moment. `main`, its workers and the timers are a step relation of their own, whose
--   calls of latlearn are performed as in a run of a program; the report of the deferred function is one of
--   these steps, and the run ends with its call of `Stop`.
--
-- Not modelled: the log lines, errors of a write to an open file, the work that the benchmarks time
-- and the example applications do for its own sake, data races between a goroutine that reads a package
-- variable and one that writes it, the order in which two goroutines interleave within one call, and
-- when the timers of example-app5.go fire.
pub mod Common
pub mod Learner
pub mod Registry
pub mod State
pub mod Span
pub mod Report
pub mod Benchmarks
pub mod Server
pub mod Api
pub mod System
pub mod Client
pub mod Apps
pub mod Examples
