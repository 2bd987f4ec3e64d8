-- ===== src/Examples.antt =====
-- Concrete runs of the model of latlearn/latlearn.go, for tests and for the conditions of its laws.
mod Statistics
mod Printing
mod Process
mod Running
mod Apps
mod Workers
use latlearn.Common.{ℕ, ℤ, pos, Bytes, true, none, List, [], ◌∷◌, codes}
use latlearn.Registry.{Sample}
use latlearn.State.{Latlearn}
use latlearn.System.{process_start}
use latlearn.Api.{init2}
use latlearn.Report.Host.{Host}
use latlearn.Client.{Env}

-- Two samples of the span load, the newer one of its variant fast.
abbrev pub load : Bytes
load = codes "load"

abbrev pub fast : Bytes
fast = codes "fast"

abbrev pub history : List Sample
history =
    record { name = load; variant = fast; t1 = pos 30; t2 = pos 37 }
    ∷ record { name = load; variant = []; t1 = pos 10; t2 = pos 25 }
    ∷ []

-- A host on which each file can be created.
abbrev pub linux : Host
linux = record {
  version = codes "go1.21";
  goarch = codes "amd64";
  goos = codes "linux";
  num_cpu = pos 8;
  gomaxprocs = pos 8;
  num_goroutine = pos 2;
  memory_limit = pos 9223372036854775807;
  lookup_env = λ key. none;
  sysctl = λ key. none;
  creates = λ path. true;
  frac = λ a b. codes "0.500000";
}

abbrev pub ticks : ℕ → ℤ
ticks i = pos i

-- `serve` takes two messages before each call.
abbrev pub world : Env
world = record {
  host = linux;
  clock = ticks;
  serve_clock = λ tick n. ticks;
  turns = λ tick. 2;
  rand = λ tick. tick;
}

-- latlearn after `Init2` with the span load.
abbrev pub started : Latlearn
started = init2 process_start (load ∷ []) (pos 0)
