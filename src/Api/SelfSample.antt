-- ===== src/Api/SelfSample.antt =====
-- `Latency_measure_self_sample`: the samples of latlearn's own overhead.
use latlearn.Common.{
  ℕ, zero, suc, ◌+◌, ◌≡◌, ◌≢◌, refl, sym, ap, ◌∙◌, ℤ, pos, Bool, true, false, List, [], ◌∷◌, ◌++◌,
  codes, append-nil, append_assoc, if◌then◌else◌, arith, none, some, length, length-append,
}
use latlearn.Common.Int.{◌≤ℤ◌, ltb_ℤ, pos_part}
use latlearn.Registry.{overhead_span}
use latlearn.State.{Latlearn, CommMsg}
use latlearn.Span.{SpanSampleUnderway, ssu_before, before, after}
use latlearn.Api.{
  is_open, new_msg, ssu_a, after_and_submit, self_sample_begun, self_sample_ended, self_sample_loop,
  latency_measure_self_sample,
}
use latlearn.Api.Queued.{has_room, sample_msg}
use latlearn.Api.Ending.{ended, end_sample-after}

-- The messages of `n` samples of the overhead, from reading `i` of the clock on.
unfoldable pub self_sample_msgs : (ℕ → ℤ) → ℕ → ℕ → List CommMsg
self_sample_msgs clock zero i = []
self_sample_msgs clock (suc n) i =
    record (new_msg (codes "A")) { name = overhead_span; t1 = clock i; t2 = clock (suc i) }
    ∷ self_sample_msgs clock n (suc (suc i))

one_msg :
    (t1 t2 : ℤ)
    → sample_msg (after (ended none (ssu_before overhead_span [] t1)) t2)
      ≡ record (new_msg (codes "A")) { name = overhead_span; t1 = t1; t2 = t2 }
unfolding after ssu_before before
one_msg t1 t2 = ground arith

abbrev with_msgs : Latlearn → List CommMsg → Latlearn
with_msgs l ms = record l { comm_outer = l.comm_outer ++ ms }

loop_next :
    (clock : ℕ → ℤ) (n i : ℕ) (l m : Latlearn) (ssu : SpanSampleUnderway)
    → ssu_a l (ssu_before overhead_span [] (clock i)) (clock (suc i)) ≡ some (m, ssu, true)
    → self_sample_loop clock (suc n) i l ≡ self_sample_loop clock n (suc (suc i)) m
unfolding self_sample_loop
loop_next clock n i l m ssu e = ground arith

one_sent :
    (t1 t2 : ℤ) (l : Latlearn)
    → is_open l ≡ true
    → has_room l ≡ true
    → ssu_a l (ssu_before overhead_span [] t1) t2
      ≡ some (
        with_msgs l (record (new_msg (codes "A")) { name = overhead_span; t1 = t1; t2 = t2 } ∷ []),
        after (ended none (ssu_before overhead_span [] t1)) t2,
        true,
      )
one_sent t1 t2 l open_ room = rw (sym (one_msg t1 t2)) (
    end_sample-after none l (ssu_before overhead_span [] t1) t2 (unfold ssu_before before in refl)
      open_ room)

self_sample_loop-sent :
    (clock : ℕ → ℤ) (n i : ℕ) (l : Latlearn)
    → is_open l ≡ true
    → pos (length l.comm_outer + n) ≤ℤ l.cap_outer
    → self_sample_loop clock n i l ≡ some (with_msgs l (self_sample_msgs clock n i), true)
unfolding self_sample_msgs
self_sample_loop-sent clock zero i l open_ room =
    rw (append-nil l.comm_outer) (unfold self_sample_loop in refl)
self_sample_loop-sent clock (suc n) i l open_ room =
    let msg : CommMsg = record (new_msg (codes "A")) {
      name = overhead_span;
      t1 = clock i;
      t2 = clock (suc i);
    } in
    loop_next clock n i l _ _ (one_sent (clock i) (clock (suc i)) l open_ (ground arith))
    ∙ self_sample_loop-sent clock n (suc (suc i)) (with_msgs l (msg ∷ [])) open_
        (omega (arith, length-append l.comm_outer (msg ∷ [])))
    ∙ ap (λ ms. some (record l { comm_outer = ms }, true))
        (append_assoc l.comm_outer (msg ∷ []) (self_sample_msgs clock n (suc (suc i))))

-- The number of samples: a million where the caller asks for less than none.
abbrev pub rounds : ℤ → ℕ
rounds n = pos_part (if ltb_ℤ n (pos 0) then pos 1_000_000 else n)

measured :
    (clock : ℕ → ℤ) (n : ℤ) (l m : Latlearn) (ok : Bool)
    → l.init_completed ≡ true
    → self_sample_loop clock (rounds n) 0 (self_sample_begun l) ≡ some (m, ok)
    → latency_measure_self_sample clock n l ≡ some (self_sample_ended ok m, ok)
unfolding latency_measure_self_sample
measured clock n l m ok done e = ground arith

open_completed : (l : Latlearn) → is_open l ≡ true → l.init_completed ≡ true
open_completed l e = ground arith

-- Where latlearn is open and its queue has room for all the samples, so that no `A` waits,
-- `Latency_measure_self_sample` returns true, has sent one message for each of them, each between
-- two consecutive readings of the clock, and has set the three flags to finished and not aborted.
pub latency_measure_self_sample-sent :
    (clock : ℕ → ℤ) (n : ℤ) (l : Latlearn)
    → is_open l ≡ true
    → pos (length l.comm_outer + rounds n) ≤ℤ l.cap_outer
    → latency_measure_self_sample clock n l
      ≡ some (
        record l {
          comm_outer = l.comm_outer ++ self_sample_msgs clock (rounds n) 0;
          overhead_samples_started = true;
          overhead_samples_finished = true;
          overhead_samples_aborted = false;
        },
        true,
      )
latency_measure_self_sample-sent clock n l open_ room =
    measured clock n l _ true (open_completed l open_)
      (self_sample_loop-sent clock (rounds n) 0 (self_sample_begun l) open_ room)

loop_refused :
    (clock : ℕ → ℤ) (n i : ℕ) (l : Latlearn)
    → is_open l ≡ false
    → self_sample_loop clock (suc n) i l ≡ some (l, false)
unfolding self_sample_loop ssu_a after_and_submit ssu_before before
loop_refused clock n i l closed = ground arith

-- Where `serve` has finished after `Init` and some samples are asked for,
-- `Latency_measure_self_sample` returns false, with nothing sent and the flags set to finished and
-- aborted.
pub latency_measure_self_sample-refused :
    (clock : ℕ → ℤ) (n : ℤ) (l : Latlearn)
    → l.init_completed ≡ true
    → l.serve_finished ≡ true
    → n ≢ pos 0
    → latency_measure_self_sample clock n l
      ≡ some (
        record l {
          overhead_samples_started = true;
          overhead_samples_finished = true;
          overhead_samples_aborted = true;
        },
        false,
      )
latency_measure_self_sample-refused clock n l done stopped some_samples =
    measured clock n l _ false done (refused (rounds n) (ground arith))
  where
    refused :
        (k : ℕ)
        → k ≢ 0
        → self_sample_loop clock k 0 (self_sample_begun l) ≡ some (self_sample_begun l, false)
    refused zero h = absurd (h refl)
    refused (suc k) h = loop_refused clock k 0 (self_sample_begun l) (ground arith)
