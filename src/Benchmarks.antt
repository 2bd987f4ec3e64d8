-- ===== src/Benchmarks.antt =====
-- `benchmarks_inner`. The code that is timed changes no state of latlearn, so a benchmark is its
-- spans, the readings of `time.Now` around the timed code, and the samples that these make.
pub mod Samples
use latlearn.Common.{
  ℕ, zero, suc, ℤ, Bytes, Bool, true, false, List, [], ◌∷◌, ◌++◌, codes, if◌then◌else◌,
}
use latlearn.State.{Latlearn}
use latlearn.Span.{ssu_before, after_and_update}

-- The state, and the number of the next reading of `time.Now`.
abbrev pub Timed : Type 0
Timed = Latlearn × ℕ

module _ (clock : ℕ → ℤ) where
  -- `ll := ssu_before( span, "")`, the timed code, `ll.after_and_update()`.
  unfoldable pub timed : Bytes → Timed → Timed
  timed span (l, i) =
      ((after_and_update l (ssu_before span [] (clock i)) (clock (suc i))).0, suc (suc i))

  unfoldable pub timed_each : List Bytes → Timed → Timed
  timed_each [] s = s
  timed_each (span ∷ spans) s = timed_each spans (timed span s)

  -- `for i := 0; i < n; i++` over the timed pieces of one round.
  unfoldable pub bench_loop : ℕ → List Bytes → Timed → Timed
  bench_loop zero spans s = s
  bench_loop (suc n) spans s = bench_loop n spans (timed_each spans s)

  unfoldable pub benchmark_exec : Bytes → Timed → Timed
  benchmark_exec name_sub =
      bench_loop 1000 ((codes "LL.exec-command(" ++ (name_sub ++ codes ")")) ∷ [])

  unfoldable pub benchmark_execs : List Bytes → Timed → Timed
  benchmark_execs [] s = s
  benchmark_execs (name_sub ∷ subs) s = benchmark_execs subs (benchmark_exec name_sub s)

  -- The loops of `benchmarks_inner`, in order: the rounds of each and its spans.
  unfoldable pub benchmark_loops : List (ℕ × List Bytes) → Timed → Timed
  benchmark_loops [] s = s
  benchmark_loops ((n, spans) ∷ loops) s = benchmark_loops loops (bench_loop n spans s)

abbrev pub loops : List (ℕ × List Bytes)
loops =
    (1000, codes "LL.fn-call-return" ∷ [])
    ∷ (1000, codes "LL.for-iters(n=1000)" ∷ [])
    ∷ (1000, codes "LL.accum-ints(n=1000)" ∷ [])
    ∷ (1000, codes "LL.add-int-literals(n=2)" ∷ [])
    ∷ (1000, codes "LL.add-str-literals(n=2)" ∷ [])
    ∷ (1000, codes "LL.map-str-int-set" ∷ [])
    ∷ (
      1000,
      codes "LL.map-str-int-get(k=100,key0)"
          ∷ codes "LL.map-str-int-get(k=100,key49)"
          ∷ codes "LL.map-str-int-get(k=100,key99)"
          ∷ [],
    )
    ∷ (1000, codes "LL.span-map-lookup" ∷ [])
    ∷ (1000, codes "LL.sort-strs(n=10)" ∷ [])
    ∷ (1, codes "LL.log-hellos(n=10)" ∷ [])
    ∷ (
      1000,
      codes "LL.byte-array-make(n=1)"
          ∷ codes "LL.byte-array-make(n=1k)"
          ∷ codes "LL.byte-array-make(n=100k)"
          ∷ [],
    )
    ∷ []

abbrev pub mac_commands : List Bytes
mac_commands =
    codes "mac,sysctl"
    ∷ codes "mac,pwd"
    ∷ codes "mac,date"
    ∷ codes "mac,host"
    ∷ codes "mac,hostname"
    ∷ codes "mac,uname"
    ∷ codes "mac,ls"
    ∷ codes "mac,df"
    ∷ codes "mac,kill"
    ∷ codes "mac,sleep=0.01s"
    ∷ codes "mac,sleep=0.001s"
    ∷ codes "mac,sleep=0.0001s"
    ∷ codes "mac,sh-version"
    ∷ []

-- Between the reading for LL.benchmarks-total and the end of the run.
unfoldable pub benchmark_body : Bool → (ℕ → ℤ) → Timed → Timed
benchmark_body darwin clock s =
    let s = benchmark_loops clock loops s in
    if darwin then benchmark_execs clock mac_commands s else s

unfoldable pub benchmarks_inner : Bool → (ℕ → ℤ) → Latlearn → Latlearn × Bool
benchmarks_inner darwin clock l =
    if l.init_completed
    then (let ll_bt = ssu_before (codes "LL.benchmarks-total") [] (clock 0) in
        let (l, i) = benchmark_body darwin clock (record l { benchmarks_started = true }, 1) in
        (record (after_and_update l ll_bt (clock i)).0 { benchmarks_finished = true }, true))
    else (l, false)
