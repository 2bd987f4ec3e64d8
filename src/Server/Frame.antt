-- ===== src/Server/Frame.antt =====
-- What the handlers leave alone: the channels, the flags of the life cycle and the channel names.
use latlearn.Common.{
  ℕ, ◌≡◌, refl, ◌∙◌, ℤ, Bytes, Bool, true, false, List, [], ◌∷◌, ap, codes, if◌then◌else◌, arith,
  Bool-cases, inl, inr, Option-cases, Option, none, some, ◌==◌, ◌&&◌,
}
use latlearn.State.{Latlearn, CommMsg}
use latlearn.Span.{ssu_before, after_and_update}
use latlearn.Report.Host.{Host, is_darwin}
use latlearn.Report.Whole.{report_inner, report_text}
use latlearn.Benchmarks.{benchmarks_inner}
use latlearn.Server.{
  handle_msg_a, handle_msg_values, values_reply, send_done, handle_msg_report,
  handle_msg_benchmarks, go_on, handle_comm_msg,
}
use latlearn.Server.Controls.{
  Control, control, chans, dones, replies, with_answers, answered, control-after_and_update,
  control-benchmarks_inner,
}

control-send_done :
    (l : Latlearn) (msg : CommMsg)
    → control (send_done l msg) ≡ with_answers (control l) (chans msg.done) []
unfolding send_done
control-send_done l msg = elim (Option-cases msg.done) [
  | inl e ↦ ground arith
  | inr (c, e) ↦ ground arith
]

-- A handler that does not panic keeps the control part, but for its answers.
abbrev pub Keeps : Control → Option (Latlearn × Bool) → Type 0
Keeps c none = Unit {0}
Keeps c (some (m, stop)) = control m ≡ c

module _ (h : Host) (clock : ℕ → ℤ) (l : Latlearn) (params : List Bytes) where
  report_inner_off :
      (l.init_completed && h.creates l.report_fpath) ≡ false
      → report_inner h clock l params ≡ some (l, false)
  unfolding report_inner
  report_inner_off e = ground arith

  report_inner_panics :
      (l.init_completed && h.creates l.report_fpath) ≡ true
      → report_text h l params (clock 1) ≡ none
      → report_inner h clock l params ≡ none
  unfolding report_inner
  report_inner_panics e f = ground arith

  report_inner_writes :
      (l.init_completed && h.creates l.report_fpath) ≡ true
      → (text : Bytes) → report_text h l params (clock 1) ≡ some text
      → report_inner h clock l params
        ≡ some (
            after_and_update
              (record l { files = (l.report_fpath, text) ∷ l.files })
              (ssu_before (codes "LL.lat-report") [] (clock 0))
              (clock 2))
  unfolding report_inner
  report_inner_writes e text f = ground arith

  report_inner-Keeps : Keeps (control l) (report_inner h clock l params)
  report_inner-Keeps = elim (Bool-cases (l.init_completed && h.creates l.report_fpath)) [
    | inr e ↦ rw (report_inner_off e) refl
    | inl e ↦ elim (Option-cases (report_text h l params (clock 1))) [
      | inl f ↦ rw (report_inner_panics e f) tt
      | inr (text, f) ↦ rw (report_inner_writes e text f) (
          control-after_and_update (record l { files = (l.report_fpath, text) ∷ l.files })
            (ssu_before (codes "LL.lat-report") [] (clock 0)) (clock 2))
    ]
  ]

module _ (h : Host) (clock : ℕ → ℤ) (l : Latlearn) (msg : CommMsg) where
  handle_msg_report-Keeps :
      Keeps (with_answers (control l) (chans msg.done) []) (go_on (handle_msg_report h clock l msg))
  unfolding handle_msg_report
  handle_msg_report-Keeps =
      go (report_inner h clock l msg.params) refl (report_inner-Keeps h clock l msg.params)
    where
      go :
          (o : Option (Latlearn × Bool))
          → report_inner h clock l msg.params ≡ o
          → Keeps (control l) o
          → Keeps
              (with_answers (control l) (chans msg.done) [])
              (go_on (handle_msg_report h clock l msg))
      go none e k = rw (e, handle_msg_report) tt
      go (some (m, ok)) e k =
          rw (e, handle_msg_report)
            (control-send_done m msg ∙ ap (λ c. with_answers c (chans msg.done) []) k)

  handle_msg_benchmarks-Keeps :
      control (handle_msg_benchmarks h clock l msg) ≡ with_answers (control l) (chans msg.done) []
  unfolding handle_msg_benchmarks
  handle_msg_benchmarks-Keeps =
      control-send_done (benchmarks_inner (is_darwin h) clock l).0 msg
      ∙ ap (λ c. with_answers c (chans msg.done) [])
          (control-benchmarks_inner clock (is_darwin h) l)

  handle_msg_values-Keeps :
      Keeps (with_answers (control l) [] (chans msg.reply_chan)) (go_on (handle_msg_values l msg))
  unfolding handle_msg_values
  handle_msg_values-Keeps = elim (Option-cases msg.reply_chan) [
    | inl e ↦ rw (e, handle_msg_values) refl
    | inr (c, e) ↦ elim (Option-cases (values_reply l.registry msg)) [
      | inl f ↦ rw (e, f, handle_msg_values) tt
      | inr (reply, f) ↦ rw (e, f, handle_msg_values) refl
    ]
  ]

  -- The answers by the type of the message, tested in the order of the handler.
  choose :
      (b : Bool) (ds ds' rs rs' : List ℕ) (x y : Option (Latlearn × Bool))
      → Keeps (with_answers (control l) ds rs) x
      → Keeps (with_answers (control l) ds' rs') y
      → Keeps
          (with_answers (control l) (if b then ds else ds') (if b then rs else rs'))
          (if b then x else y)
  choose true ds ds' rs rs' x y s t = s
  choose false ds ds' rs rs' x y s t = t

  choose_dones :
      (b : Bool) (ds ds' rs : List ℕ) (x y : Option (Latlearn × Bool))
      → Keeps (with_answers (control l) ds rs) x
      → Keeps (with_answers (control l) ds' rs) y
      → Keeps (with_answers (control l) (if b then ds else ds') rs) (if b then x else y)
  choose_dones true ds ds' rs x y s t = s
  choose_dones false ds ds' rs x y s t = t

  choose_neither :
      (b : Bool) (c : Control) (x y : Option (Latlearn × Bool))
      → Keeps c x
      → Keeps c y
      → Keeps c (if b then x else y)
  choose_neither true c x y s t = s
  choose_neither false c x y s t = t

  -- No handler touches the channels to `serve` or the flags of the life cycle, and each answers
  -- just where its message asks for it.
  pub handle_comm_msg-Keeps : Keeps (answered msg (control l)) (handle_comm_msg h clock l msg)
  unfolding handle_comm_msg handle_msg_a dones replies
  handle_comm_msg-Keeps = choose (msg.ttype == codes "A") [] _ [] _ _ _ refl (
      choose (msg.ttype == codes "values") [] _ (chans msg.reply_chan) [] _ _
        handle_msg_values-Keeps
        (choose_dones (msg.ttype == codes "benchmarks") (chans msg.done) _ [] _ _
          handle_msg_benchmarks-Keeps
          (choose_dones (msg.ttype == codes "report") (chans msg.done) [] [] _ _
            handle_msg_report-Keeps
            (choose_neither (msg.ttype == codes "stop") (control l) _ _ refl refl))))
