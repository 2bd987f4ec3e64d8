-- ===== src/System/Completed.antt =====
-- Initialisation is never undone.
use latlearn.Common.{◌≡◌, ap, ◌∙◌, inl, inr, ℤ, Bytes, true, false, List, arith, Bool-cases}
use latlearn.State.{Latlearn}
use latlearn.Report.Host.{Host}
use latlearn.Server.{serve_start, serve_outer, serve_inner}
use latlearn.Server.Controls.{Control}
use latlearn.Api.{init_inner, init2}
use latlearn.Api.Sent.{
  ssu_a-Sent, ssu_a2-Sent, report2-Sent, benchmarks-Sent, call_values-Sent, stop-Sent,
}
use latlearn.System.{
  Step, Reach, initialises, configures, ends, ends_variant, asks_report, asks_benchmarks,
  asks_values, asks_stop, begins_self_sample, ends_self_sample, serve_starts, serves_outer,
  serves_inner, here, next,
}
use latlearn.System.Round.{round-channels}

pub init2_completed :
    (l : Latlearn) (spans_app : List Bytes) (now : ℤ)
    → l.init_completed ≡ true
    → (init2 l spans_app now).init_completed ≡ true
unfolding init2 init_inner
init2_completed l spans_app now on = elim (Bool-cases l.init_once) [
  | inl e ↦ ground arith
  | inr e ↦ ground arith
]

pub init2_done :
    (l : Latlearn) (spans_app : List Bytes) (now : ℤ)
    → l.init_once ≡ l.init_completed
    → (init2 l spans_app now).init_completed ≡ true
unfolding init2 init_inner
init2_done l spans_app now once = elim (Bool-cases l.init_once) [
  | inl e ↦ ground arith
  | inr e ↦ ground arith
]

pub Step-completed :
    (h : Host) {l m : Latlearn} → Step h l m → l.init_completed ≡ true → m.init_completed ≡ true
unfolding serve_outer serve_inner
Step-completed h {l} (initialises spans_app now) on = init2_completed l spans_app now on
Step-completed h (configures outer inner builtins subtract path) on = on
Step-completed h {l} {m} (ends ssu ssu' now ok e) on =
    (ssu_a-Sent l ssu now m ssu' ok e).init_completed ∙ on
Step-completed h {l} {m} (ends_variant ssu ssu' variant now ok e) on =
    (ssu_a2-Sent l ssu variant now m ssu' ok e).init_completed ∙ on
Step-completed h {l} {m} (asks_report params chan e) on =
    (report2-Sent l m params chan e).init_completed ∙ on
Step-completed h {l} {m} (asks_benchmarks chan e) on =
    (benchmarks-Sent l m chan e).init_completed ∙ on
Step-completed h {l} {m} (asks_values span chan e) on =
    (call_values-Sent l m span chan e).init_completed ∙ on
Step-completed h {l} {m} (asks_stop ok e) on = (stop-Sent l m ok e).init_completed ∙ on
Step-completed h begins_self_sample on = on
Step-completed h (ends_self_sample true) on = on
Step-completed h (ends_self_sample false) on = on
Step-completed h (serve_starts _ _) on = unfold serve_start in on
Step-completed h {l} {m} (serves_outer clock msg rest _ _ q e) on =
    ap (λ (c : Control). c.init_completed)
      (round-channels h clock (record l { comm_outer = rest }) msg m e)
    ∙ on
Step-completed h {l} {m} (serves_inner clock msg rest _ _ q e) on =
    ap (λ (c : Control). c.init_completed)
      (round-channels h clock (record l { comm_inner = rest }) msg m e)
    ∙ on

pub Reach-completed :
    (h : Host) {l m : Latlearn} → Reach h l m → l.init_completed ≡ true → m.init_completed ≡ true
Reach-completed h here on = on
Reach-completed h (next r s) on = Step-completed h s (Reach-completed h r on)
