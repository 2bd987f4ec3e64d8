-- ===== src/Server/Handlers.antt =====
-- The handlers on a valid registry: none panics, each keeps it valid, and a request for values is
-- answered with the statistics of its span.
use latlearn.Common.{
  ℕ, ◌≡◌, refl, inl, inr, ℤ, Bytes, Bool, true, false, ◌⊎◌, ◌&&◌, List, [], ◌∷◌, codes,
  if◌then◌else◌, arith, Bool-cases, Option-cases, Option, none, some, ◌==◌,
}
use latlearn.Registry.{handle_ssu_a}
use latlearn.Registry.Store.{IsValid}
use latlearn.Registry.Handle.{handle_ssu_a-IsValid}
use latlearn.Registry.Trace.{run-IsValid}
use latlearn.State.{Latlearn, CommMsg, ReplyMsg}
use latlearn.Span.{SpanSampleUnderway, ssu_before, after, after_and_update}
use latlearn.Report.Host.{Host, is_darwin}
use latlearn.Report.Whole.{report_inner, report_text}
use latlearn.Report.Whole.Total.{report_text_rows}
use latlearn.Benchmarks.{benchmarks_inner}
use latlearn.Benchmarks.Samples.{benchmarks_inner-run}
use latlearn.Server.{
  handle_msg_a, values_reply, handle_msg_values, send_done, handle_msg_report,
  handle_msg_benchmarks, go_on, handle_comm_msg, finish, serve_outer, serve_inner,
}
use latlearn.Server.Reply.{values_reply-stats}

-- The handler's result is no panic, and its registry is valid.
abbrev IsServed : Option (Latlearn × Bool) → Type 0
IsServed none = ⊥
IsServed (some (l, stop)) = IsValid l.registry

abbrev IsServedState : Option Latlearn → Type 0
IsServedState none = ⊥
IsServedState (some l) = IsValid l.registry

after_and_update_registry :
    (l : Latlearn) (ssu : SpanSampleUnderway) (now : ℤ)
    → ((after_and_update l ssu now).0.registry
        ≡ (handle_ssu_a l.registry
            (after ssu now).name
            (after ssu now).variant
            (after ssu now).t1
            (after ssu now).t2).0)
      ⊎ ((after_and_update l ssu now).0.registry ≡ l.registry)
unfolding after_and_update
after_and_update_registry l ssu now = elim (Bool-cases l.init_completed) [
  | inl e ↦ inl (ground arith)
  | inr e ↦ inr (ground arith)
]

after_and_update-IsValid :
    (l : Latlearn) (ssu : SpanSampleUnderway) (now : ℤ)
    → IsValid l.registry
    → IsValid (after_and_update l ssu now).0.registry
after_and_update-IsValid l ssu now v = elim (after_and_update_registry l ssu now) [
  | inl e ↦ rw e (handle_ssu_a-IsValid l.registry _ _ _ _ v)
  | inr e ↦ rw e v
]

-- `report_inner` gives up with the state as it was, or writes a text and updates.
pub report_inner_cases :
    (h : Host) (clock : ℕ → ℤ) (l : Latlearn) (params : List Bytes) (text : Bytes)
    → report_text h l params (clock 1) ≡ some text
    → (report_inner h clock l params ≡ some (l, false))
      ⊎ (report_inner h clock l params
          ≡ some (
              after_and_update
                (record l { files = (l.report_fpath, text) ∷ l.files })
                (ssu_before (codes "LL.lat-report") [] (clock 0))
                (clock 2)))
unfolding report_inner
report_inner_cases h clock l params text e =
    elim (Bool-cases (l.init_completed && h.creates l.report_fpath)) [
      | inl c ↦ inr (ground arith)
      | inr c ↦ inl (ground arith)
    ]

report_inner-IsServed :
    (h : Host) (clock : ℕ → ℤ) (l : Latlearn) (params : List Bytes)
    → IsValid l.registry
    → IsServed (report_inner h clock l params)
report_inner-IsServed h clock l params v =
    elim (report_inner_cases h clock l params _ (report_text_rows h l params (clock 1) v)) [
      | inl e ↦ rw e v
      | inr e ↦
          rw e (
            after_and_update-IsValid _ (ssu_before (codes "LL.lat-report") [] (clock 0)) (clock 2)
              v)
    ]

pub benchmarks_inner_off :
    (darwin : Bool) (clock : ℕ → ℤ) (l : Latlearn)
    → l.init_completed ≡ false
    → benchmarks_inner darwin clock l ≡ (l, false)
unfolding benchmarks_inner
benchmarks_inner_off darwin clock l e = ground arith

benchmarks_inner-IsValid :
    (darwin : Bool) (clock : ℕ → ℤ) (l : Latlearn)
    → IsValid l.registry
    → IsValid (benchmarks_inner darwin clock l).0.registry
benchmarks_inner-IsValid darwin clock l v = elim (Bool-cases l.init_completed) [
  | inl e ↦ let t = benchmarks_inner-run darwin clock l e in rw t.1 (run-IsValid l.registry t.0 v)
  | inr e ↦ rw (benchmarks_inner_off darwin clock l e) v
]

pub send_done-registry : (l : Latlearn) (msg : CommMsg) → (send_done l msg).registry ≡ l.registry
unfolding send_done
send_done-registry l msg = ground arith

handle_msg_report-IsServed :
    (h : Host) (clock : ℕ → ℤ) (l : Latlearn) (msg : CommMsg)
    → IsValid l.registry
    → IsServedState (handle_msg_report h clock l msg)
unfolding handle_msg_report
handle_msg_report-IsServed h clock l msg v =
    go (report_inner h clock l msg.params) refl (report_inner-IsServed h clock l msg.params v)
  where
    go :
        (o : Option (Latlearn × Bool))
        → report_inner h clock l msg.params ≡ o
        → IsServed o
        → IsServedState (handle_msg_report h clock l msg)
    go none e s = absurd s
    go (some (m, ok)) e s = rw (e, handle_msg_report) (rw (send_done-registry m msg) s)

handle_msg_values_nil :
    (l : Latlearn) (msg : CommMsg) → msg.reply_chan ≡ none → handle_msg_values l msg ≡ some l
unfolding handle_msg_values
handle_msg_values_nil l msg e = ground arith

handle_msg_values_sent :
    (l : Latlearn) (msg : CommMsg) (chan : ℕ) (reply : ReplyMsg)
    → msg.reply_chan ≡ some chan
    → values_reply l.registry msg ≡ some reply
    → handle_msg_values l msg ≡ some (record l { reply_chans = (chan, reply) ∷ l.reply_chans })
unfolding handle_msg_values
handle_msg_values_sent l msg chan reply e f = ground arith

handle_msg_values-IsServed :
    (l : Latlearn) (msg : CommMsg) → IsValid l.registry → IsServedState (handle_msg_values l msg)
handle_msg_values-IsServed l msg v = elim (Option-cases msg.reply_chan) [
  | inl e ↦ rw (handle_msg_values_nil l msg e) v
  | inr (chan, e) ↦
      rw (handle_msg_values_sent l msg chan _ e (values_reply-stats l.registry msg v)) v
]

handle_msg_benchmarks-IsValid :
    (h : Host) (clock : ℕ → ℤ) (l : Latlearn) (msg : CommMsg)
    → IsValid l.registry
    → IsValid (handle_msg_benchmarks h clock l msg).registry
unfolding handle_msg_benchmarks
handle_msg_benchmarks-IsValid h clock l msg v =
    rw (send_done-registry (benchmarks_inner (is_darwin h) clock l).0 msg)
      (benchmarks_inner-IsValid (is_darwin h) clock l v)

go_on-IsServed : (o : Option Latlearn) → IsServedState o → IsServed (go_on o)
go_on-IsServed none s = s
go_on-IsServed (some l) s = s

choose :
    (b : Bool) (x y : Option (Latlearn × Bool))
    → IsServed x
    → IsServed y
    → IsServed (if b then x else y)
choose true x y s t = s
choose false x y s t = t

handle_comm_msg-IsServed :
    (h : Host) (clock : ℕ → ℤ) (l : Latlearn) (msg : CommMsg)
    → IsValid l.registry
    → IsServed (handle_comm_msg h clock l msg)
unfolding handle_comm_msg handle_msg_a
handle_comm_msg-IsServed h clock l msg v =
    choose (msg.ttype == codes "A") _ _
      (handle_ssu_a-IsValid l.registry msg.name msg.variant msg.t1 msg.t2 v)
      (choose (msg.ttype == codes "values") _ _
        (go_on-IsServed _ (handle_msg_values-IsServed l msg v))
        (choose (msg.ttype == codes "benchmarks") _ _
          (handle_msg_benchmarks-IsValid h clock l msg v)
          (choose (msg.ttype == codes "report") _ _
            (go_on-IsServed _ (handle_msg_report-IsServed h clock l msg v))
            (choose (msg.ttype == codes "stop") _ _ v v))))

finish-IsServedState : (o : Option (Latlearn × Bool)) → IsServed o → IsServedState (finish o)
finish-IsServedState none s = s
finish-IsServedState (some (l, true)) s = s
finish-IsServedState (some (l, false)) s = s

served :
    (o : Option Latlearn) → IsServedState o → (m : Latlearn) × (o ≡ some m) × IsValid m.registry
served none s = absurd s
served (some m) s = (m, refl, s)

-- With a valid registry one round of `serve` never panics, whatever the message that it takes from
-- `comm_outer`, and leaves the registry valid.
pub serve_outer_total :
    (h : Host) (clock : ℕ → ℤ) (l : Latlearn) (msg : CommMsg) (rest : List CommMsg)
    → IsValid l.registry
    → (m : Latlearn) × (serve_outer h clock l msg rest ≡ some m) × IsValid m.registry
unfolding serve_outer
serve_outer_total h clock l msg rest v = served _ (
    finish-IsServedState _
      (handle_comm_msg-IsServed h clock (record l { comm_outer = rest }) msg v))

serve_inner_total :
    (h : Host) (clock : ℕ → ℤ) (l : Latlearn) (msg : CommMsg) (rest : List CommMsg)
    → IsValid l.registry
    → (m : Latlearn) × (serve_inner h clock l msg rest ≡ some m) × IsValid m.registry
unfolding serve_inner
serve_inner_total h clock l msg rest v = served _ (
    finish-IsServedState _
      (handle_comm_msg-IsServed h clock (record l { comm_inner = rest }) msg v))
