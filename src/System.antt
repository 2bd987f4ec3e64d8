-- ===== src/System.antt =====
-- latlearn as a whole: the application's goroutines and `serve`, one step at a time and in any
-- order. A call that has to wait, for room in the queue or for an answer, has no step yet.
-- `Report` is `Report2` with no parameters, `Overhead` is `Values` of one span, and the samples of
-- `Latency_measure_self_sample` are those of `A`.
pub mod Invariant
pub mod Numbered
pub mod Stopped
pub mod Late
pub mod Order
pub mod Answers
pub mod Progress
pub mod Statistics
pub mod Round
pub mod Completed
use latlearn.Common.{ℕ, ◌≡◌, ℤ, pos, Bytes, Bool, true, false, Option, List, [], ◌∷◌, codes, some}
use latlearn.Registry.{empty_registry}
use latlearn.State.{Latlearn, CommMsg}
use latlearn.Span.{SpanSampleUnderway}
use latlearn.Report.Host.{Host}
use latlearn.Server.{serve_start, serve_outer, serve_inner}
use latlearn.Api.{
  init2, ssu_a, ssu_a2, report2, benchmarks, call_values, stop, self_sample_begun,
  self_sample_ended,
}

-- The package variables at the start of the process.
abbrev pub process_start : Latlearn
process_start = record {
  outer_queue_capacity = pos 1_000_000;
  inner_queue_capacity = pos 50;
  cap_outer = pos 0;
  cap_inner = pos 0;
  comm_outer = [];
  comm_inner = [];
  init_once = false;
  init_time = pos 0;
  init_completed = false;
  serve_started = false;
  serve_finished = false;
  registry = empty_registry;
  should_report_builtins = true;
  should_subtract_overhead = false;
  report_fpath = codes "latlearn-report.txt";
  overhead_samples_started = false;
  overhead_samples_finished = false;
  overhead_samples_aborted = false;
  benchmarks_started = false;
  benchmarks_finished = false;
  next_chan = 0;
  done_chans = [];
  reply_chans = [];
  files = [];
}

-- The exported settings, which an application assigns.
abbrev pub configured : Latlearn → ℤ → ℤ → Bool → Bool → Bytes → Latlearn
configured l outer inner builtins subtract path = record l {
  outer_queue_capacity = outer;
  inner_queue_capacity = inner;
  should_report_builtins = builtins;
  should_subtract_overhead = subtract;
  report_fpath = path;
}

module _ (h : Host) where
  -- `serve` takes a message from either channel as long as it is not finished.
  pub data Step (l : Latlearn) : Latlearn → Type 0 where
    initialises : (spans_app : List Bytes) (now : ℤ) → Step l (init2 l spans_app now)
    configures :
        (outer inner : ℤ) (builtins subtract : Bool) (path : Bytes)
        → Step l (configured l outer inner builtins subtract path)
    ends :
        (ssu ssu' : SpanSampleUnderway) (now : ℤ) (ok : Bool) {m : Latlearn}
        → ssu_a l ssu now ≡ some (m, ssu', ok)
        → Step l m
    ends_variant :
        (ssu ssu' : SpanSampleUnderway) (variant : Bytes) (now : ℤ) (ok : Bool) {m : Latlearn}
        → ssu_a2 l ssu variant now ≡ some (m, ssu', ok)
        → Step l m
    asks_report :
        (params : List Bytes) (chan : Option ℕ) {m : Latlearn}
        → report2 l params ≡ some (m, chan)
        → Step l m
    asks_benchmarks : (chan : Option ℕ) {m : Latlearn} → benchmarks l ≡ some (m, chan) → Step l m
    asks_values :
        (span : Bytes) (chan : Option ℕ) {m : Latlearn}
        → call_values l span ≡ some (m, chan)
        → Step l m
    asks_stop : (ok : Bool) {m : Latlearn} → stop l ≡ some (m, ok) → Step l m
    begins_self_sample : Step l (self_sample_begun l)
    ends_self_sample : (ok : Bool) → Step l (self_sample_ended ok l)
    serve_starts : l.init_completed ≡ true → l.serve_started ≡ false → Step l (serve_start l)
    serves_outer :
        (clock : ℕ → ℤ) (msg : CommMsg) (rest : List CommMsg) {m : Latlearn}
        → l.serve_started ≡ true
        → l.serve_finished ≡ false
        → l.comm_outer ≡ msg ∷ rest
        → serve_outer h clock l msg rest ≡ some m
        → Step l m
    serves_inner :
        (clock : ℕ → ℤ) (msg : CommMsg) (rest : List CommMsg) {m : Latlearn}
        → l.serve_started ≡ true
        → l.serve_finished ≡ false
        → l.comm_inner ≡ msg ∷ rest
        → serve_inner h clock l msg rest ≡ some m
        → Step l m

  pub data Reach (l : Latlearn) : Latlearn → Type 0 where
    here : Reach l l
    next : {m n : Latlearn} → Reach l m → Step m n → Reach l n
