-- ===== src/Examples/Running.antt =====
-- A sample on its way: `Init2`, `A2`, the start of `serve`, and the round that handles the message.
use latlearn.Common.{◌≡◌, refl, pos, true, some, [], ◌∷◌, ◌++◌, codes, ◌==◌, mem}
use latlearn.Common.Int.{◌-ℤ◌}
use latlearn.Learner.Samples.{Summarises}
use latlearn.Registry.{span_key_form, time_sub, spans_latlearn_builtin}
use latlearn.Registry.Store.{IsValid, stats}
use latlearn.Registry.Init.{init_registry-IsValid}
use latlearn.Registry.Trace.{durations}
use latlearn.State.{Latlearn, CommMsg}
use latlearn.Span.{SpanSampleUnderway, span_b, ssu_before, before, after}
use latlearn.Server.{serve_outer, serve_start}
use latlearn.Server.Handlers.{serve_outer_total}
use latlearn.Server.Own.{sample_of}
use latlearn.Api.{call_values, request, send, init2, init_inner, ssu_a2, new_msg}
use latlearn.Api.Ending.{ended, end_sample-after}
use latlearn.System.{
  process_start, Reach, here, next, initialises, ends_variant, asks_values, serve_starts,
  serves_outer,
}
use latlearn.System.Order.{all_sent, all_handled, sent_by, handled_by, Reach-order}
use latlearn.System.Answers.{replied_chans, Reach-answers}
use latlearn.Server.Controls.{dones, replies}
use latlearn.System.Progress.{Drained, Reach-Drained}
use latlearn.System.Statistics.{Reach-Summarises}
use latlearn.Examples.{load, fast, linux, ticks, started}

-- A sample of load, from 10 to 25 ns, that ends as its variant fast, and the message that it sends.
abbrev begun : SpanSampleUnderway
begun = span_b load (pos 10)

abbrev message : CommMsg
message = record (new_msg (codes "A")) { name = load; variant = fast; t1 = pos 10; t2 = pos 25 }

abbrev sampled : Latlearn
sampled = record started { comm_outer = message ∷ [] }

sampled_sent :
    ssu_a2 started begun fast (pos 25)
    ≡ some (sampled, after (ended (some fast) begun) (pos 25), true)
unfolding init2 init_inner span_b ssu_before before after
sampled_sent = end_sample-after (some fast) started begun (pos 25) refl refl refl

sampled-IsValid : IsValid (serve_start sampled).registry
unfolding init2 init_inner serve_start
sampled-IsValid = init_registry-IsValid (load ∷ [])

-- The state after `serve` has handled the message.
handled :
    (m : Latlearn) × (serve_outer linux ticks (serve_start sampled) message [] ≡ some m)
    × IsValid m.registry
handled = serve_outer_total linux ticks (serve_start sampled) message [] sampled-IsValid

handled_Reach : Reach linux started handled.0
unfolding init2 init_inner serve_start
handled_Reach =
    next
      (next
        (next here (
          ends_variant begun (after (ended (some fast) begun) (pos 25)) fast (pos 25) true
            sampled_sent))
        (serve_starts refl refl))
      (serves_outer ticks message [] refl refl refl handled.1)

Reach-Summarises_example : Summarises (stats handled.0.registry load) load (pos 15 ∷ [])
unfolding init2 init_inner all_handled handled_by handled_Reach sample_of durations time_sub ◌-ℤ◌
    ◌==◌ span_key_form mem spans_latlearn_builtin
Reach-Summarises_example =
    Reach-Summarises linux (load ∷ []) [] handled_Reach load refl refl refl refl ((refl, refl), tt)

-- The run up to the start of `serve`.
sampled_Reach : Reach linux process_start (serve_start sampled)
unfolding init2 init_inner
sampled_Reach =
    next
      (next (next here (initialises (load ∷ []) (pos 0))) (
        ends_variant begun (after (ended (some fast) begun) (pos 25)) fast (pos 25) true
          sampled_sent))
      (serve_starts refl refl)

-- The same run to its end.
whole_Reach : Reach linux process_start handled.0
unfolding init2 init_inner serve_start
whole_Reach = next sampled_Reach (serves_outer ticks message [] refl refl refl handled.1)

Reach-order_example : message ∷ [] ≡ (message ∷ []) ++ handled.0.comm_outer
unfolding all_sent all_handled sent_by handled_by whole_Reach sampled_Reach init2 init_inner span_b
    ssu_before before after
Reach-order_example = Reach-order linux handled.0 whole_Reach

-- A request for the values of load, and its answer on channel 0.
abbrev question : CommMsg
question = record (new_msg (codes "values")) { name = load; reply_chan = some 0 }

abbrev asked : Latlearn
asked = record started { comm_outer = question ∷ []; next_chan = 1 }

asked_sent : call_values started load ≡ some (asked, some 0)
unfolding call_values request send init2 init_inner
asked_sent = refl

asked-IsValid : IsValid (serve_start asked).registry
unfolding init2 init_inner serve_start
asked-IsValid = init_registry-IsValid (load ∷ [])

replied :
    (m : Latlearn) × (serve_outer linux ticks (serve_start asked) question [] ≡ some m)
    × IsValid m.registry
replied = serve_outer_total linux ticks (serve_start asked) question [] asked-IsValid

replied_Reach : Reach linux process_start replied.0
unfolding init2 init_inner serve_start
replied_Reach =
    next
      (next
        (next (next here (initialises (load ∷ []) (pos 0))) (asks_values load (some 0) asked_sent))
        (serve_starts refl refl))
      (serves_outer ticks question [] refl refl refl replied.1)

Reach-answers_example : (replied.0.done_chans ≡ []) × (replied_chans replied.0 ≡ 0 ∷ [])
unfolding all_handled handled_by replied_Reach dones replies ◌==◌
Reach-answers_example = Reach-answers linux replied.0 replied_Reach

Reach-Drained_example : Drained linux (serve_start sampled) (message ∷ [])
unfolding init2 init_inner serve_start ◌==◌
Reach-Drained_example =
    Reach-Drained linux ticks (serve_start sampled) sampled_Reach refl refl (refl, tt)
