-- ===== src/System/Order.antt =====
-- The order of the messages: from the calls, through `comm_outer`, to `serve`.
use latlearn.Common.{
  ℕ, ◌≡◌, refl, sym, ap, ◌∙◌, ◌⊎◌, inl, inr, ℤ, Bytes, true, false, List, [], ◌∷◌, ◌++◌, codes,
  append-nil, append_assoc, subst, arith, Bool-cases, some,
}
use latlearn.State.{Latlearn, CommMsg}
use latlearn.Report.Host.{Host}
use latlearn.Server.{serve_start, serve_outer}
use latlearn.Server.Controls.{Control}
use latlearn.Api.{new_msg, init2}
use latlearn.Api.Sent.{
  Sent, ended_msgs, request_msgs, stop_msgs, ssu_a-Sent, ssu_a2-Sent, report2-Sent, benchmarks-Sent,
  call_values-Sent, stop-Sent,
}
use latlearn.System.{
  process_start, Step, Reach, initialises, configures, ends, ends_variant, asks_report,
  asks_benchmarks, asks_values, asks_stop, begins_self_sample, ends_self_sample, serve_starts,
  serves_outer, serves_inner, here, next,
}
use latlearn.System.Invariant.{Inv, Step-Inv, process_start-Inv, init2_first, init2_again}
use latlearn.System.Round.{round-channels}

-- The messages that a step sends.
unfoldable pub sent_by : {h : Host} {l m : Latlearn} → Step h l m → List CommMsg
sent_by (initialises spans_app now) = []
sent_by (configures outer inner builtins subtract path) = []
sent_by (ends ssu ssu' now ok e) = ended_msgs ssu' ok
sent_by (ends_variant ssu ssu' variant now ok e) = ended_msgs ssu' ok
sent_by (asks_report params chan e) =
    request_msgs (λ c. record (new_msg (codes "report")) { params = params; done = some c }) chan
sent_by (asks_benchmarks chan e) =
    request_msgs (λ c. record (new_msg (codes "benchmarks")) { done = some c }) chan
sent_by (asks_values span chan e) =
    request_msgs (λ c. record (new_msg (codes "values")) { name = span; reply_chan = some c }) chan
sent_by (asks_stop ok e) = stop_msgs ok
sent_by begins_self_sample = []
sent_by (ends_self_sample ok) = []
sent_by (serve_starts done fresh) = []
sent_by (serves_outer clock msg rest running unfinished q e) = []
sent_by (serves_inner clock msg rest running unfinished q e) = []

-- The message that a step handles, if it is one of `serve`.
unfoldable pub handled_by : {h : Host} {l m : Latlearn} → Step h l m → List CommMsg
handled_by (initialises spans_app now) = []
handled_by (configures outer inner builtins subtract path) = []
handled_by (ends ssu ssu' now ok e) = []
handled_by (ends_variant ssu ssu' variant now ok e) = []
handled_by (asks_report params chan e) = []
handled_by (asks_benchmarks chan e) = []
handled_by (asks_values span chan e) = []
handled_by (asks_stop ok e) = []
handled_by begins_self_sample = []
handled_by (ends_self_sample ok) = []
handled_by (serve_starts done fresh) = []
handled_by (serves_outer clock msg rest running unfinished q e) = msg ∷ []
handled_by (serves_inner clock msg rest running unfinished q e) = msg ∷ []

unfoldable pub all_sent : {h : Host} {l m : Latlearn} → Reach h l m → List CommMsg
all_sent here = []
all_sent (next r s) = all_sent r ++ sent_by s

unfoldable pub all_handled : {h : Host} {l m : Latlearn} → Reach h l m → List CommMsg
all_handled here = []
all_handled (next r s) = all_handled r ++ handled_by s

-- Before `Init` nothing is sent.
abbrev Quiet : Latlearn → Type 0
Quiet l = (l.init_completed ≡ true) ⊎ (l.comm_outer ≡ [])

record Passed (l : Latlearn) (sent handled : List CommMsg) (m : Latlearn) : Type 0 where
  queue : l.comm_outer ++ sent ≡ handled ++ m.comm_outer
  quiet : Quiet m

Passed-Sent : (l m : Latlearn) (ms : List CommMsg) → Quiet l → Sent l ms m → Passed l ms [] m
Passed-Sent l m ms q s = record { queue = sym s.queue; quiet = go q s.ready }
  where
    go : Quiet l → (ms ≡ []) ⊎ (l.init_completed ≡ true) → Quiet m
    go q (inr e) = inl (s.init_completed ∙ e)
    go (inl e) (inl none_sent) = inl (s.init_completed ∙ e)
    go (inr e) (inl none_sent) = inr (s.queue ∙ rw (e, none_sent) refl)

Passed-kept :
    (l m : Latlearn)
    → Quiet l
    → m.comm_outer ≡ l.comm_outer
    → m.init_completed ≡ l.init_completed
    → Passed l [] [] m
Passed-kept l m q e c =
    Passed-Sent l m [] q
      (record { queue = e ∙ sym (append-nil l.comm_outer); init_completed = c; ready = inl refl })

init2-Passed :
    (l : Latlearn) (spans_app : List Bytes) (now : ℤ)
    → Inv l
    → Quiet l
    → Passed l [] [] (init2 l spans_app now)
init2-Passed l spans_app now v q = elim (Bool-cases l.init_once) [
  | inl e ↦ rw (init2_again l spans_app now e) (Passed-kept l l q refl refl)
  | inr e ↦ subst (Passed l [] []) (sym (init2_first l spans_app now e (sym v.once ∙ e))) (record {
    queue = elim q [ inl c ↦ absurd (ground (arith, v.once)) | inr none_sent ↦ rw none_sent refl ];
    quiet = inr refl;
  })
]

serve_outer-Passed :
    (h : Host) (clock : ℕ → ℤ) (l m : Latlearn) (msg : CommMsg) (rest : List CommMsg)
    → l.comm_outer ≡ msg ∷ rest
    → serve_outer h clock l msg rest ≡ some m
    → Quiet l
    → Passed l [] (msg ∷ []) m
unfolding serve_outer
serve_outer-Passed h clock l m msg rest q e quiet =
    let k = round-channels h clock (record l { comm_outer = rest }) msg m e in
    record {
      queue =
          append-nil l.comm_outer
          ∙ q
          ∙ ap (λ ms. msg ∷ ms) (sym (ap (λ (c : Control). c.comm_outer) k));
      quiet = inl (
          ap (λ (c : Control). c.init_completed) k
          ∙ elim quiet [ inl c ↦ c | inr empty ↦ absurd (ground arith) ]);
    }

Step-Passed :
    {h : Host} {l m : Latlearn} (s : Step h l m)
    → Inv l
    → Quiet l
    → Passed l (sent_by s) (handled_by s) m
unfolding sent_by handled_by
Step-Passed {h} {l} (initialises spans_app now) v q = init2-Passed l spans_app now v q
Step-Passed {h} {l} {m} (configures outer inner builtins subtract path) v q =
    Passed-kept l m q refl refl
Step-Passed {h} {l} {m} (ends ssu ssu' now ok e) v q =
    Passed-Sent l m _ q (ssu_a-Sent l ssu now m ssu' ok e)
Step-Passed {h} {l} {m} (ends_variant ssu ssu' variant now ok e) v q =
    Passed-Sent l m _ q (ssu_a2-Sent l ssu variant now m ssu' ok e)
Step-Passed {h} {l} {m} (asks_report params chan e) v q =
    Passed-Sent l m _ q (report2-Sent l m params chan e)
Step-Passed {h} {l} {m} (asks_benchmarks chan e) v q =
    Passed-Sent l m _ q (benchmarks-Sent l m chan e)
Step-Passed {h} {l} {m} (asks_values span chan e) v q =
    Passed-Sent l m _ q (call_values-Sent l m span chan e)
Step-Passed {h} {l} {m} (asks_stop ok e) v q = Passed-Sent l m _ q (stop-Sent l m ok e)
Step-Passed {h} {l} {m} begins_self_sample v q = Passed-kept l m q refl refl
Step-Passed {h} {l} {m} (ends_self_sample true) v q = Passed-kept l m q refl refl
Step-Passed {h} {l} {m} (ends_self_sample false) v q = Passed-kept l m q refl refl
Step-Passed {h} {l} {m} (serve_starts done fresh) v q =
    Passed-kept l m q (unfold serve_start in refl) (unfold serve_start in refl)
Step-Passed {h} {l} {m} (serves_outer clock msg rest running unfinished q e) v quiet =
    serve_outer-Passed h clock l m msg rest q e quiet
Step-Passed {h} {l} {m} (serves_inner clock msg rest running unfinished q e) v quiet =
    absurd (ground (arith, v.unused))

joined :
    (xs ys zs us vs ws : List CommMsg)
    → xs ≡ ys ++ zs
    → zs ++ us ≡ vs ++ ws
    → xs ++ us ≡ (ys ++ vs) ++ ws
joined xs ys zs us vs ws e f =
    ap (λ ms. ms ++ us) e
    ∙ append_assoc ys zs us
    ∙ ap (λ ms. ys ++ ms) f
    ∙ sym (append_assoc ys vs ws)

Reach-Passed :
    {h : Host} {k l : Latlearn} (r : Reach h k l)
    → Inv k
    → Quiet k
    → Inv l × Passed k (all_sent r) (all_handled r) l
unfolding all_sent all_handled
Reach-Passed {k = k} here v q = (v, record { queue = append-nil k.comm_outer; quiet = q })
Reach-Passed {h} {k} (next {m} {n} r s) v q =
    let (u, p) = Reach-Passed r v q in
    let t = Step-Passed s u p.quiet in
    (
      Step-Inv h s u,
      record {
        queue =
            sym (append_assoc k.comm_outer (all_sent r) (sent_by s))
            ∙ joined (k.comm_outer ++ all_sent r) (all_handled r) m.comm_outer (sent_by s)
                (handled_by s) n.comm_outer p.queue t.queue;
        quiet = t.quiet;
      },
    )

-- From an initialised state: the messages that were in the queue, and then those that are sent, are
-- those that are handled and those that are still in the queue.
pub Reach-balance :
    {h : Host} {k l : Latlearn} (r : Reach h k l)
    → Inv k
    → k.init_completed ≡ true
    → k.comm_outer ++ all_sent r ≡ all_handled r ++ l.comm_outer
Reach-balance r v on = (Reach-Passed r v (inl on)).1.queue

-- In every state that the process reaches, in whatever order the goroutines run, the messages that
-- the calls have sent are, in order, those that `serve` has handled and those still in the queue:
-- none is lost, handled twice, or overtaken.
pub Reach-order :
    (h : Host) (l : Latlearn) (r : Reach h process_start l)
    → all_sent r ≡ all_handled r ++ l.comm_outer
Reach-order h l r = (Reach-Passed r process_start-Inv (inr refl)).1.queue
