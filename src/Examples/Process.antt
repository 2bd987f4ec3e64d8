-- ===== src/Examples/Process.antt =====
-- The whole process, on concrete calls.
use latlearn.Common.{
  ℕ, ◌≡◌, refl, pos, true, false, some, none, List, [], ◌∷◌, ◌++◌, codes, arith, All, mem, ◌==◌,
  is_some, sym, ◌∙◌,
}
use latlearn.Common.Dict.{lookup}
use mathlib.Core.List.{map}
use latlearn.Common.Int.{◌-ℤ◌}
use latlearn.State.{Latlearn, CommMsg, ReplyMsg}
use latlearn.Span.{SpanSampleUnderway, span_b, ssu_before, before, after}
use latlearn.Registry.{time_sub, Sample, init_registry, run, span_key_form, spans_latlearn_builtin}
use latlearn.Registry.Store.{IsValid}
use latlearn.Registry.Init.{init_registry-IsValid}
use latlearn.Registry.Trace.{durations, IsApart, run-IsValid, tracked_spans-run}
use latlearn.Benchmarks.{benchmarks_inner}
use latlearn.Benchmarks.Samples.{benchmark_spans, benchmarks_inner-run}
use latlearn.Server.{values_reply, serve_outer, serve_start}
use latlearn.Server.Handlers.{serve_outer_total}
use latlearn.Server.Reply.{Gives, values_reply-Summarises}
use latlearn.Api.SelfSample.{self_sample_msgs, latency_measure_self_sample-sent}
use latlearn.Api.{latency_measure_self_sample, self_sample_begun, init2, init_inner, new_msg}
use latlearn.Api.Ending.{end_sample, ended, end_twice, end_sample-after, end_sample_sent}
use latlearn.Api.Queued.{send_room}
use latlearn.System.{Reach, here, next, initialises, begins_self_sample}
use latlearn.System.Invariant.{Inv, Reach-Inv}
use latlearn.System.Late.{Settled, starts, steps, sends_late, LateReach-Settled}
use latlearn.System.Stopped.{hung, report_msg, report_after_stop}
use latlearn.Examples.{load, fast, history, linux, ticks, started}

Reach-Inv_example : Inv started
Reach-Inv_example = Reach-Inv linux (next here (initialises (load ∷ []) (pos 0)))

started-IsValid : IsValid started.registry
unfolding init2 init_inner
started-IsValid = init_registry-IsValid (load ∷ [])

serve_outer_total_example :
    (m : Latlearn) × (serve_outer linux ticks started (report_msg 4) [] ≡ some m)
    × IsValid m.registry
serve_outer_total_example = serve_outer_total linux ticks started (report_msg 4) [] started-IsValid

-- A request for the values of load.
abbrev ask_load : (chan : ℕ) → CommMsg
ask_load chan = record (new_msg (codes "values")) { name = load; reply_chan = some chan }

history-IsApart : All (IsApart (((load ∷ []) ++ spans_latlearn_builtin) ++ [])) history
unfolding mem ◌==◌ span_key_form spans_latlearn_builtin
history-IsApart = ((refl, refl), ((refl, refl), tt))

known :
    is_some (lookup (span_key_form load []) (run (init_registry (load ∷ [])) history).learners)
    ≡ true
unfolding mem ◌==◌ span_key_form
known =
    let v = run-IsValid (init_registry (load ∷ [])) history (init_registry-IsValid (load ∷ [])) in
    let (more, e) = tracked_spans-run (load ∷ []) history in sym (v.tracked load) ∙ rw e refl

values_reply-Summarises_example :
    (reply : ReplyMsg) × (values_reply (run (init_registry (load ∷ [])) history) (ask_load 3)
      ≡ some reply)
    × Gives reply (codes "values") load (pos 7 ∷ pos 15 ∷ [])
unfolding durations time_sub ◌==◌ span_key_form ◌-ℤ◌
values_reply-Summarises_example =
    values_reply-Summarises (load ∷ []) [] history (ask_load 3) history-IsApart known

abbrev served : Latlearn
served = serve_start started

-- A sample of load from 10 to 25 ns.
abbrev begun : SpanSampleUnderway
begun = span_b load (pos 10)

started_fields :
    (started.init_completed ≡ true) × (started.init_once ≡ true) × (started.comm_outer ≡ [])
unfolding init2 init_inner
started_fields = (refl, refl, refl)

-- The end of the sample was set to 20 ns before.
end_sample_sent_example :
    end_sample (some fast) started (record begun { t2 = pos 20 }) (pos 25)
    ≡ some (
      record started {
        comm_outer =
            started.comm_outer
            ++ record (new_msg (codes "A")) {
              name = load;
              variant = fast;
              t1 = pos 10;
              t2 = pos 20;
            }
              ∷ [];
      },
      record { name = load; variant = fast; t1 = pos 10; t2 = pos 20; ended = true },
      true,
    )
unfolding init2 init_inner span_b ssu_before before
end_sample_sent_example =
    end_sample_sent (some fast) started (record begun { t2 = pos 20 }) (pos 25) refl refl refl

end_twice_example :
    end_sample (some fast) started (after (ended none begun) (pos 25)) (pos 30)
    ≡ some (started, after (ended none begun) (pos 25), false)
unfolding init2 init_inner span_b ssu_before before
end_twice_example =
    end_twice none (some fast) started _ started begun (after (ended none begun) (pos 25)) (pos 25)
      (pos 30) true (end_sample-after none started begun (pos 25) refl refl refl)

benchmarks_inner-run_example :
    (samples : List Sample) × ((benchmarks_inner true ticks started).0.registry
      ≡ run started.registry samples)
    × (map (λ (s : Sample). s.name) samples ≡ benchmark_spans true)
    × All (λ s. s.variant ≡ []) samples
    × ((benchmarks_inner true ticks started).1 ≡ true)
benchmarks_inner-run_example = benchmarks_inner-run true ticks started (started_fields.0)

report_after_stop_example :
    Reach linux served (hung served)
    × ((hung served).comm_outer ≡ report_msg served.next_chan ∷ [])
    × ((hung served).done_chans ≡ served.done_chans)
unfolding init2 init_inner serve_start
report_after_stop_example =
    report_after_stop linux ticks served (hung served) refl refl refl (omega arith) refl here

-- A call of `A` that has passed its guard when `serve` finishes.
abbrev late_msg : CommMsg
late_msg = record (new_msg (codes "A")) { name = load; t1 = pos 10; t2 = pos 25 }

abbrev late : Latlearn
late = record (self_sample_begun (hung started)) {
  comm_outer = (hung started).comm_outer ++ late_msg ∷ [];
}

LateReach-Settled_example : Settled (hung started) late
unfolding init2 init_inner
LateReach-Settled_example =
    LateReach-Settled linux refl refl
      (sends_late late_msg (steps starts begins_self_sample) (send_room _ late_msg refl))

latency_measure_self_sample-sent_example :
    latency_measure_self_sample ticks (pos 2) started
    ≡ some (
      record started {
        comm_outer = self_sample_msgs ticks 2 0;
        overhead_samples_started = true;
        overhead_samples_finished = true;
        overhead_samples_aborted = false;
      },
      true,
    )
unfolding init2 init_inner
latency_measure_self_sample-sent_example =
    latency_measure_self_sample-sent ticks (pos 2) started refl (omega arith)
