-- ===== src/Apps/App1.antt =====
-- example-app1.go: spans with and without variants, and reports of them.
use latlearn.Common.{refl, ℤ, pos, negsuc, Bytes, true, false, List, [], ◌∷◌, ◌++◌, codes}
use latlearn.Registry.{overhead_span}
use latlearn.Report.Text.{sprint_d}
use latlearn.Client.{
  Call, set_report_fpath, set_should_report_builtins, set_should_subtract_overhead, ask_report,
  ask_benchmarks, Program, returns, call, ◌>>=◌, ◌>>◌, Env, World,
}
use latlearn.Client.Calm.{Calm}
use latlearn.Client.Programs.{
  call_init2, call_b, call_b2, call_a, call_report, call_report2, call_benchmarks, for_range,
  measure_self_sample,
}
use latlearn.Client.Outcome.{
  Ready, Outcome, Any, and_then-Outcome, and_quietly-Outcome, returns-Outcome,
}
use latlearn.Client.Outcome.Calls.{
  past-Outcome, measured-Outcome, quiet_calls-Outcome, spans-Outcome,
}
use latlearn.Client.Outcome.Loops.{
  repeated, init-Outcome, repeat-Outcome, measure_self_sample-Outcome,
}

abbrev pub fn1 : Program (Unit {0})
fn1 = do ll ← call_b (codes "fn1"); call_a ll; returns tt

abbrev pub fn2 : Program (Unit {0})
fn2 = do ll ← call_b (codes "fn2"); call_a ll; returns tt

abbrev pub fn3_variant : ℤ → Bytes
fn3_variant n = codes "n=" ++ sprint_d n

-- The loop, whose sum nothing reads, is left out; that of `fn4` too.
abbrev pub fn3 : ℤ → Program (Unit {0})
fn3 n = do ll ← call_b2 (codes "fn3") (fn3_variant n); call_a ll; returns tt

abbrev pub fn4_variant : ℤ → ℤ → Bytes
fn4_variant a b = codes "a=" ++ sprint_d a ++ codes ",b=" ++ sprint_d b

abbrev pub fn4 : ℤ → ℤ → Program (Unit {0})
fn4 a b = do ll ← call_b2 (codes "fn4") (fn4_variant a b); call_a ll; returns tt

abbrev pub expected_spans : List Bytes
expected_spans = codes "print-yo" ∷ codes "fn1" ∷ codes "fn2" ∷ []

abbrev pub context_params : List Bytes
context_params = codes "ver=1.2" ∷ codes "commit=whatever" ∷ codes "N=2" ∷ codes "cores=2" ∷ []

abbrev pub main : Program (Unit {0})
main = do
  call_init2 expected_spans
  ll ← call_b (codes "print-yo")
  call_a ll
  fn1
  call_report
  call_report2 context_params
  call_benchmarks
  call (set_report_fpath (codes "latlearn-report2.txt"))
  call_report2 context_params
  for_range 100_234 0 (λ i. fn2)
  call (set_report_fpath (codes "latlearn-report3.txt"))
  call_report2 context_params
  for_range 2 0 (λ i. call_b (codes "totally-adhoc") >>= λ ll. call_a ll >> returns tt)
  call (set_report_fpath (codes "latlearn-report4.txt"))
  call_report
  call (set_report_fpath (codes "latlearn-report5.txt"))
  call (set_should_report_builtins false)
  call_report
  call (set_report_fpath (codes "latlearn-report6.txt"))
  call (set_should_report_builtins true)
  call (set_should_subtract_overhead true)
  measure_self_sample (negsuc 0)
  call_report
  fn3 (pos 1)
  fn3 (pos 50)
  fn3 (pos 20_000)
  fn4 (pos 1) (pos 1)
  fn4 (pos 1) (pos 100)
  fn4 (pos 10) (pos 20)
  for_range 100 0 (λ i. fn4 (pos 1_000) (pos 15))
  call (set_report_fpath (codes "latlearn-report7.txt"))
  call_report
  returns tt

-- The samples that `main` ends, in order.
abbrev variants : List (Bytes × Bytes)
variants =
    (codes "fn3", fn3_variant (pos 1))
    ∷ (codes "fn3", fn3_variant (pos 50))
    ∷ (codes "fn3", fn3_variant (pos 20_000))
    ∷ (codes "fn4", fn4_variant (pos 1) (pos 1))
    ∷ (codes "fn4", fn4_variant (pos 1) (pos 100))
    ∷ (codes "fn4", fn4_variant (pos 10) (pos 20))
    ∷ []

abbrev later_samples : List (Bytes × Bytes)
later_samples = variants ++ repeated 100 ((codes "fn4", fn4_variant (pos 1_000) (pos 15)) ∷ [])

abbrev pub main_samples : List (Bytes × Bytes)
main_samples =
    (codes "print-yo", [])
    ∷ (codes "fn1", [])
    ∷ (repeated 100_234 ((codes "fn2", []) ∷ [])
        ++ (repeated 2 ((codes "totally-adhoc", []) ∷ [])
            ++ (repeated 1_000_000 ((overhead_span, []) ∷ []) ++ later_samples)))

-- The calls of `main` between its spans.
abbrev report_to : Bytes → List Bytes → List Call
report_to path context = set_report_fpath path ∷ ask_report context ∷ []

abbrev first_reports : List Call
first_reports =
    ask_report []
    ∷ ask_report context_params
    ∷ ask_benchmarks
    ∷ report_to (codes "latlearn-report2.txt") context_params

abbrev settings : List Call
settings =
    set_report_fpath (codes "latlearn-report4.txt")
    ∷ ask_report []
    ∷ set_report_fpath (codes "latlearn-report5.txt")
    ∷ set_should_report_builtins false
    ∷ ask_report []
    ∷ set_report_fpath (codes "latlearn-report6.txt")
    ∷ set_should_report_builtins true
    ∷ set_should_subtract_overhead true
    ∷ []

module _ (e : Env) where
  fn2_loop :
      (w : World)
      → Ready w.latlearn
      → Outcome e (for_range 100_234 0 (λ i. fn2)) w Any (repeated 100_234 ((codes "fn2", []) ∷ []))
  fn2_loop w r =
      repeat-Outcome e 100_234 (λ i. fn2) ((codes "fn2", []) ∷ []) w r
        (λ i v s. measured-Outcome e (codes "fn2") [] v s)

  adhoc_loop :
      (w : World)
      → Ready w.latlearn
      → Outcome e
          (for_range 2 0 (λ i. call_b (codes "totally-adhoc") >>= λ ll. call_a ll >> returns tt))
          w
          Any
          (repeated 2 ((codes "totally-adhoc", []) ∷ []))
  adhoc_loop w r =
      repeat-Outcome e 2 _ ((codes "totally-adhoc", []) ∷ []) w r
        (λ i v s. measured-Outcome e (codes "totally-adhoc") [] v s)

  fn4_loop :
      (a b : ℤ) (w : World)
      → Ready w.latlearn
      → Outcome e
          (for_range 100 0 (λ i. fn4 a b))
          w
          Any
          (repeated 100 ((codes "fn4", fn4_variant a b) ∷ []))
  fn4_loop a b w r =
      repeat-Outcome e 100 (λ i. fn4 a b) ((codes "fn4", fn4_variant a b) ∷ []) w r
        (λ i v s. measured-Outcome e (codes "fn4") (fn4_variant a b) v s)

  -- Whatever the host, the clock and the turns of `serve`, `main` runs to its end from a calm latlearn,
  -- and the samples that it ends are, in order: one of print-yo and one of fn1, 100,234 of fn2, 2 of
  -- totally-adhoc, 1,000,000 of the overhead, and of fn3 and fn4 one for each call, by its variant.
  pub main-Outcome : (w : World) → Calm w.latlearn → Outcome e main w Any main_samples
  main-Outcome w calm = and_then-Outcome e (init-Outcome e expected_spans w calm) λ _ w r _.
      spans-Outcome e ((codes "print-yo", []) ∷ (codes "fn1", []) ∷ []) w r λ w r.
        quiet_calls-Outcome e first_reports w refl r λ w r.
          and_then-Outcome e (fn2_loop w r) λ _ w r _.
            quiet_calls-Outcome e (report_to (codes "latlearn-report3.txt") context_params) w refl r
              λ w r. and_then-Outcome e (adhoc_loop w r) λ _ w r _.
                quiet_calls-Outcome e settings w refl r λ w r.
                  and_then-Outcome e (measure_self_sample-Outcome e (negsuc 0) w r) λ _ w r _.
                    past-Outcome e (ask_report []) w refl r λ _ w r.
                      spans-Outcome e variants w r λ w r.
                        and_quietly-Outcome e (fn4_loop (pos 1_000) (pos 15) w r) λ _ w r _.
                          quiet_calls-Outcome e (report_to (codes "latlearn-report7.txt") []) w refl
                            r λ w r. returns-Outcome e tt w Any r tt
