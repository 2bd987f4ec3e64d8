-- ===== src/State.antt =====
-- The package variables of latlearn/latlearn.go, its messages, and the channels between the
-- application's goroutines and `serve`.
use latlearn.Common.{ℕ, ℤ, Bytes, Bool, List, Option}
use latlearn.Registry.{Registry}

-- A channel that a caller makes for its answer is named by a number; nil is `none`.
pub record CommMsg : Type 0 where
  pub ttype : Bytes
  pub params : List Bytes
  pub name : Bytes
  pub variant : Bytes
  pub t1 : ℤ
  pub t2 : ℤ
  pub done : Option ℕ
  pub reply_chan : Option ℕ

pub record ReplyMsg : Type 0 where
  pub ttype : Bytes
  pub name : Bytes
  pub pair_ever_completed : Bool
  pub min : ℤ
  pub last : ℤ
  pub max : ℤ
  pub mean : ℤ
  pub cumul : ℤ
  pub weight : ℤ

pub record Latlearn : Type 0 where
  pub outer_queue_capacity : ℤ
  pub inner_queue_capacity : ℤ
  -- The two channels: their capacity, fixed when they were made, and their buffered messages, the
  -- oldest first.
  pub cap_outer : ℤ
  pub cap_inner : ℤ
  pub comm_outer : List CommMsg
  pub comm_inner : List CommMsg
  -- `init_oncer` has run its function.
  pub init_once : Bool
  pub init_time : ℤ
  pub init_completed : Bool
  pub serve_started : Bool
  pub serve_finished : Bool
  -- `learners` and `tracked_spans`.
  pub registry : Registry
  pub should_report_builtins : Bool
  pub should_subtract_overhead : Bool
  pub report_fpath : Bytes
  pub overhead_samples_started : Bool
  pub overhead_samples_finished : Bool
  pub overhead_samples_aborted : Bool
  pub benchmarks_started : Bool
  pub benchmarks_finished : Bool
  -- What has been sent on the callers' channels, and the reports written, by path.
  pub next_chan : ℕ
  pub done_chans : List ℕ
  pub reply_chans : List (ℕ × ReplyMsg)
  pub files : List (Bytes × Bytes)
