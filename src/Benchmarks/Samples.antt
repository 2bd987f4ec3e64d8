-- ===== src/Benchmarks/Samples.antt =====
-- The benchmarks, as the samples that they add to the registry.
use latlearn.Common.{
  append_assoc, ℕ, zero, suc, ◌≡◌, refl, sym, ap, ◌∙◌, ℤ, Bytes, Bool, true, false, List, [], ◌∷◌,
  ◌++◌, codes, if◌then◌else◌, arith, All, All-append,
}
use mathlib.Core.List.{map, map-append, reverse, reverse-cons}
use latlearn.Registry.{Registry, Sample, run, handle_ssu_a}
use latlearn.State.{Latlearn}
use latlearn.Span.{ssu_before, after, after_and_update}
use latlearn.Benchmarks.{
  Timed, timed, timed_each, bench_loop, benchmark_exec, benchmark_execs, benchmark_loops, loops,
  mac_commands, benchmark_body, benchmarks_inner,
}

-- From `l` to `m` the registry takes one sample without variant for each of `spans`, in order, and
-- latlearn stays initialised.
pub record Takes (l : Latlearn) (spans : List Bytes) (m : Latlearn) : Type 0 where
  pub samples : List Sample
  pub taken : m.registry ≡ run l.registry samples
  pub names : map (λ (s : Sample). s.name) samples ≡ spans
  pub plain : All (λ s. s.variant ≡ []) samples
  pub ready : m.init_completed ≡ true

pub run-append : (r : Registry) (ss ts : List Sample) → run r (ss ++ ts) ≡ run (run r ts) ss
unfolding run
run-append r [] ts = refl
run-append r (s ∷ ss) ts =
    ap (λ q. (handle_ssu_a q s.name s.variant s.t1 s.t2).0) (run-append r ss ts)

-- Newest first.
Takes-append :
    (l m n : Latlearn) (xs ys : List Bytes) → Takes l xs m → Takes m ys n → Takes l (ys ++ xs) n
Takes-append l m n xs ys a b = record {
  samples = b.samples ++ a.samples;
  taken = b.taken ∙ rw (a.taken) (sym (run-append l.registry b.samples a.samples));
  names = rw (map-append (λ (s : Sample). s.name) b.samples a.samples, b.names, a.names);
  plain = All-append (λ (s : Sample). s.variant ≡ []) b.samples a.samples b.plain a.plain;
  ready = b.ready;
}

pub after_and_update-Takes :
    (l : Latlearn) (span : Bytes) (t0 t1 : ℤ)
    → l.init_completed ≡ true
    → Takes l (span ∷ []) (after_and_update l (ssu_before span [] t0) t1).0
unfolding after_and_update ssu_before run after
after_and_update-Takes l span t0 t1 e = record {
  samples = record { name = span; variant = []; t1 = t0; t2 = t1 } ∷ [];
  taken = ground arith;
  names = refl;
  plain = (refl, tt);
  ready = ground arith;
}

Takes-refl : (l : Latlearn) → l.init_completed ≡ true → Takes l [] l
unfolding run
Takes-refl l e = record { samples = []; taken = refl; names = refl; plain = tt; ready = e }

-- `n` times the spans `xs`, and the spans of all loops, newest first.
pub repeat : ℕ → List Bytes → List Bytes
repeat zero xs = []
repeat (suc n) xs = repeat n xs ++ xs

pub loops_spans : List (ℕ × List Bytes) → List Bytes
loops_spans [] = []
loops_spans ((n, spans) ∷ ls) = loops_spans ls ++ repeat n (reverse spans)

pub execs_spans : List Bytes → List Bytes
execs_spans [] = []
execs_spans (sub ∷ subs) =
    execs_spans subs ++ repeat 1000 ((codes "LL.exec-command(" ++ (sub ++ codes ")")) ∷ [])

-- What holds for the spans of each loop holds for all of them.
module _ (P : Bytes → Type 0) where
  repeat-All : (n : ℕ) (xs : List Bytes) → All P xs → All P (repeat n xs)
  unfolding repeat
  repeat-All zero xs a = tt
  repeat-All (suc n) xs a = All-append P (repeat n xs) xs (repeat-All n xs a) a

  pub loops_spans-All :
      (ls : List (ℕ × List Bytes))
      → All (λ (l : ℕ × List Bytes). All P (reverse l.1)) ls
      → All P (loops_spans ls)
  unfolding loops_spans
  loops_spans-All [] a = tt
  loops_spans-All ((n, spans) ∷ ls) a =
      All-append P (loops_spans ls) (repeat n (reverse spans)) (loops_spans-All ls a.1)
        (repeat-All n (reverse spans) a.0)

  pub execs_spans-All :
      (subs : List Bytes)
      → All (λ sub. P (codes "LL.exec-command(" ++ (sub ++ codes ")"))) subs
      → All P (execs_spans subs)
  unfolding execs_spans
  execs_spans-All [] a = tt
  execs_spans-All (sub ∷ subs) a =
      All-append P (execs_spans subs) _ (execs_spans-All subs a.1) (repeat-All 1000 _ (a.0, tt))

module _ (clock : ℕ → ℤ) where
  timed_each-Takes :
      (spans : List Bytes) (s : Timed)
      → s.0.init_completed ≡ true
      → Takes s.0 (reverse spans) (timed_each clock spans s).0
  unfolding timed_each timed
  timed_each-Takes [] s e = Takes-refl s.0 e
  timed_each-Takes (span ∷ spans) (l, i) e =
      let a = after_and_update-Takes l span (clock i) (clock (suc i)) e in
      rw (reverse-cons span spans) (
        Takes-append l _ _ (span ∷ []) (reverse spans) a
          (timed_each-Takes spans (timed clock span (l, i)) a.ready))

  bench_loop-Takes :
      (n : ℕ) (spans : List Bytes) (s : Timed)
      → s.0.init_completed ≡ true
      → Takes s.0 (repeat n (reverse spans)) (bench_loop clock n spans s).0
  unfolding bench_loop repeat
  bench_loop-Takes zero spans s e = Takes-refl s.0 e
  bench_loop-Takes (suc n) spans s e =
      let a = timed_each-Takes spans s e in
      Takes-append s.0 _ _ (reverse spans) (repeat n (reverse spans)) a
        (bench_loop-Takes n spans (timed_each clock spans s) a.ready)

  loops-Takes :
      (ls : List (ℕ × List Bytes)) (s : Timed)
      → s.0.init_completed ≡ true
      → Takes s.0 (loops_spans ls) (benchmark_loops clock ls s).0
  unfolding benchmark_loops loops_spans
  loops-Takes [] s e = Takes-refl s.0 e
  loops-Takes ((n, spans) ∷ ls) s e =
      let a = bench_loop-Takes n spans s e in
      Takes-append s.0 _ _ (repeat n (reverse spans)) (loops_spans ls) a
        (loops-Takes ls (bench_loop clock n spans s) a.ready)

  execs-Takes :
      (subs : List Bytes) (s : Timed)
      → s.0.init_completed ≡ true
      → Takes s.0 (execs_spans subs) (benchmark_execs clock subs s).0
  unfolding benchmark_execs execs_spans benchmark_exec
  execs-Takes [] s e = Takes-refl s.0 e
  execs-Takes (sub ∷ subs) s e =
      let a = bench_loop-Takes 1000 ((codes "LL.exec-command(" ++ (sub ++ codes ")")) ∷ []) s e in
      Takes-append s.0 _ _ (repeat 1000 ((codes "LL.exec-command(" ++ (sub ++ codes ")")) ∷ []))
        (execs_spans subs) a (execs-Takes subs (benchmark_exec clock sub s) a.ready)

  body-Takes :
      (darwin : Bool) (s : Timed)
      → s.0.init_completed ≡ true
      → Takes s.0
          ((if darwin then execs_spans mac_commands else []) ++ loops_spans loops)
          (benchmark_body darwin clock s).0
  unfolding benchmark_body
  body-Takes true s e =
      let a = loops-Takes loops s e in
      Takes-append s.0 _ _ (loops_spans loops) (execs_spans mac_commands) a
        (execs-Takes mac_commands (benchmark_loops clock loops s) a.ready)
  body-Takes false s e = loops-Takes loops s e

-- The spans that a run of the benchmarks samples, newest first: on every system, and on macOS after those.
pub portable_spans : List Bytes
portable_spans =
    repeat 1000 (
      codes "LL.byte-array-make(n=100k)"
      ∷ codes "LL.byte-array-make(n=1k)"
      ∷ codes "LL.byte-array-make(n=1)"
      ∷ [])
    ++ repeat 1 (codes "LL.log-hellos(n=10)" ∷ [])
    ++ repeat 1000 (codes "LL.sort-strs(n=10)" ∷ [])
    ++ repeat 1000 (codes "LL.span-map-lookup" ∷ [])
    ++ repeat 1000 (
        codes "LL.map-str-int-get(k=100,key99)"
        ∷ codes "LL.map-str-int-get(k=100,key49)"
        ∷ codes "LL.map-str-int-get(k=100,key0)"
        ∷ [])
    ++ repeat 1000 (codes "LL.map-str-int-set" ∷ [])
    ++ repeat 1000 (codes "LL.add-str-literals(n=2)" ∷ [])
    ++ repeat 1000 (codes "LL.add-int-literals(n=2)" ∷ [])
    ++ repeat 1000 (codes "LL.accum-ints(n=1000)" ∷ [])
    ++ repeat 1000 (codes "LL.for-iters(n=1000)" ∷ [])
    ++ repeat 1000 (codes "LL.fn-call-return" ∷ [])

pub mac_spans : List Bytes
mac_spans =
    repeat 1000 (codes "LL.exec-command(mac,sh-version)" ∷ [])
    ++ repeat 1000 (codes "LL.exec-command(mac,sleep=0.0001s)" ∷ [])
    ++ repeat 1000 (codes "LL.exec-command(mac,sleep=0.001s)" ∷ [])
    ++ repeat 1000 (codes "LL.exec-command(mac,sleep=0.01s)" ∷ [])
    ++ repeat 1000 (codes "LL.exec-command(mac,kill)" ∷ [])
    ++ repeat 1000 (codes "LL.exec-command(mac,df)" ∷ [])
    ++ repeat 1000 (codes "LL.exec-command(mac,ls)" ∷ [])
    ++ repeat 1000 (codes "LL.exec-command(mac,uname)" ∷ [])
    ++ repeat 1000 (codes "LL.exec-command(mac,hostname)" ∷ [])
    ++ repeat 1000 (codes "LL.exec-command(mac,host)" ∷ [])
    ++ repeat 1000 (codes "LL.exec-command(mac,date)" ∷ [])
    ++ repeat 1000 (codes "LL.exec-command(mac,pwd)" ∷ [])
    ++ repeat 1000 (codes "LL.exec-command(mac,sysctl)" ∷ [])

abbrev pub benchmark_spans : Bool → List Bytes
benchmark_spans darwin =
    codes "LL.benchmarks-total" ∷ ((if darwin then mac_spans else []) ++ portable_spans)

pub loops_spans-loops : loops_spans loops ≡ portable_spans
unfolding loops_spans portable_spans
loops_spans-loops = simp append_assoc

pub execs_spans-mac : execs_spans mac_commands ≡ mac_spans
unfolding execs_spans mac_spans
execs_spans-mac = simp append_assoc

pub benchmarks_inner_eq :
    (darwin : Bool) (clock : ℕ → ℤ) (l : Latlearn)
    → l.init_completed ≡ true
    → let s = benchmark_body darwin clock (record l { benchmarks_started = true }, 1) in
      benchmarks_inner darwin clock l ≡ (
        record (after_and_update s.0
            (ssu_before (codes "LL.benchmarks-total") [] (clock 0))
            (clock s.1)).0 { benchmarks_finished = true },
        true,
      )
unfolding benchmarks_inner
benchmarks_inner_eq darwin clock l e = ground arith

modelled_spans :
    (darwin : Bool)
    → (codes "LL.benchmarks-total" ∷ [])
        ++ ((if darwin then execs_spans mac_commands else []) ++ loops_spans loops)
      ≡ benchmark_spans darwin
modelled_spans darwin = rw (loops_spans-loops, execs_spans-mac) refl

-- Where latlearn is initialised, `benchmarks_inner` succeeds and adds to the registry the samples of
-- `benchmark_spans`, without variants and in that order, and nothing else: of each span of the table
-- above 1,000, but one of LL.log-hellos(n=10) and, at the end, one of LL.benchmarks-total, and those
-- of the commands only on macOS.
pub benchmarks_inner-run :
    (darwin : Bool) (clock : ℕ → ℤ) (l : Latlearn)
    → l.init_completed ≡ true
    → (samples : List Sample) × ((benchmarks_inner darwin clock l).0.registry
        ≡ run l.registry samples)
      × (map (λ (s : Sample). s.name) samples ≡ benchmark_spans darwin)
      × All (λ s. s.variant ≡ []) samples
      × ((benchmarks_inner darwin clock l).1 ≡ true)
benchmarks_inner-run darwin clock l e =
    let s : Timed = (record l { benchmarks_started = true }, 1) in
    let body = body-Takes clock darwin s e in
    let m = benchmark_body darwin clock s in
    let t =
      Takes-append l m.0 _ _ (codes "LL.benchmarks-total" ∷ [])
        (record {
          samples = body.samples;
          taken = body.taken;
          names = body.names;
          plain = body.plain;
          ready = body.ready;
        })
        (after_and_update-Takes m.0 (codes "LL.benchmarks-total") (clock 0) (clock m.1)
          body.ready) in
    rw (benchmarks_inner_eq darwin clock l e)
      (t.samples, t.taken, t.names ∙ modelled_spans darwin, t.plain, refl)
