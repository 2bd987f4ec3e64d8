-- ===== src/Server.antt =====
-- `serve`: the goroutine that owns the statistics, and its handlers. `none` is a panic.
pub mod Handlers
pub mod Frame
pub mod Effect
pub mod Reply
pub mod Own
pub mod Controls
use latlearn.Common.{
  ℕ, ℤ, negsuc, Bytes, Bool, true, false, Option, none, some, List, ◌∷◌, codes, ◌==◌, if◌then◌else◌,
  get_elem?,
}
use latlearn.Common.Dict.{lookup}
use latlearn.Learner.{LatencyLearner, values}
use latlearn.Registry.{Registry, get_ll, span_key_form, handle_ssu_a}
use latlearn.State.{Latlearn, CommMsg, ReplyMsg}
use latlearn.Report.Host.{Host, is_darwin}
use latlearn.Report.Whole.{report_inner}
use latlearn.Benchmarks.{benchmarks_inner}

unfoldable pub handle_msg_a : Latlearn → CommMsg → Latlearn × Bool
handle_msg_a l msg =
    let (r, ok) = handle_ssu_a l.registry msg.name msg.variant msg.t1 msg.t2 in
    (record l { registry = r }, ok)

unfoldable pub no_entry_found : CommMsg → Bytes → ReplyMsg
no_entry_found msg key = record {
  ttype = msg.ttype;
  name = key;
  pair_ever_completed = false;
  min = negsuc 0;
  last = negsuc 0;
  max = negsuc 0;
  mean = negsuc 0;
  cumul = negsuc 0;
  weight = negsuc 0;
}

unfoldable pub reply_values : CommMsg → LatencyLearner → ReplyMsg
unfolding values
reply_values msg ll =
    let v = values ll in
    record {
      ttype = msg.ttype;
      name = v.name;
      pair_ever_completed = v.pair_ever_completed;
      min = v.min;
      last = v.last;
      max = v.max;
      mean = v.mean;
      cumul = v.cumul;
      weight = v.weight;
    }

-- The reply to a request for values; a nil learner is dereferenced.
unfoldable pub values_reply : Registry → CommMsg → Option ReplyMsg
values_reply r msg =
    let key = span_key_form msg.name msg.variant in
    elim (lookup key r.learners) [
      | none ↦ some (no_entry_found msg key)
      | some lli ↦ elim (get_ll lli) [
        | none ↦ none
        | some a ↦ elim (get_elem? r.heap a) [ none ↦ none | some ll ↦ some (reply_values msg ll) ]
      ]
    ]

unfoldable pub handle_msg_values : Latlearn → CommMsg → Option Latlearn
handle_msg_values l msg = elim msg.reply_chan [
  | none ↦ some l
  | some chan ↦ elim (values_reply l.registry msg) [
    | none ↦ none
    | some reply ↦ some (record l { reply_chans = (chan, reply) ∷ l.reply_chans })
  ]
]

-- `if msg.done != nil { msg.done <- true}`
unfoldable pub send_done : Latlearn → CommMsg → Latlearn
send_done l msg = elim msg.done [
  | none ↦ l
  | some chan ↦ record l { done_chans = chan ∷ l.done_chans }
]

unfoldable pub handle_msg_report : Host → (ℕ → ℤ) → Latlearn → CommMsg → Option Latlearn
handle_msg_report h clock l msg = elim (report_inner h clock l msg.params) [
  | none ↦ none
  | some (l, ok) ↦ some (send_done l msg)
]

unfoldable pub handle_msg_benchmarks : Host → (ℕ → ℤ) → Latlearn → CommMsg → Latlearn
handle_msg_benchmarks h clock l msg = send_done (benchmarks_inner (is_darwin h) clock l).0 msg

-- `stop` with the state.
abbrev pub go_on : Option Latlearn → Option (Latlearn × Bool)
go_on none = none
go_on (some l) = some (l, false)

unfoldable pub handle_comm_msg : Host → (ℕ → ℤ) → Latlearn → CommMsg → Option (Latlearn × Bool)
handle_comm_msg h clock l msg =
    if msg.ttype == codes "A"
    then some ((handle_msg_a l msg).0, false)
    else if msg.ttype == codes "values"
    then go_on (handle_msg_values l msg)
    else if msg.ttype == codes "benchmarks"
    then some (handle_msg_benchmarks h clock l msg, false)
    else if msg.ttype == codes "report"
    then go_on (handle_msg_report h clock l msg)
    else if msg.ttype == codes "stop"
    then some (l, true)
    else some (l, false)

-- After a message: the loop returns on stop, and `serve` is finished.
abbrev pub finish : Option (Latlearn × Bool) → Option Latlearn
finish none = none
finish (some (l, stop)) = some (if stop then record l { serve_finished = true } else l)

-- The two cases of the select in `serve`, each with its message taken out of the channel.
unfoldable pub serve_outer : Host → (ℕ → ℤ) → Latlearn → CommMsg → List CommMsg → Option Latlearn
serve_outer h clock l msg rest =
    finish (handle_comm_msg h clock (record l { comm_outer = rest }) msg)

unfoldable pub serve_inner : Host → (ℕ → ℤ) → Latlearn → CommMsg → List CommMsg → Option Latlearn
serve_inner h clock l msg rest =
    finish (handle_comm_msg h clock (record l { comm_inner = rest }) msg)

unfoldable pub serve_start : Latlearn → Latlearn
serve_start l = record l { serve_started = true }
