-- ===== src/System/Invariant.antt =====
-- What holds in every state of the process.
use latlearn.Common.{
  ◌∷◌, ℕ, ◌≡◌, refl, sym, ap, subst, ◌∙◌, inl, inr, ℤ, pos, Bytes, true, false, List, [], ◌∷◌,
  arith, Bool-cases, Option, some, length, length-append,
}
use latlearn.Common.Int.{◌≤ℤ◌}
use latlearn.Registry.{init_registry}
use latlearn.Registry.Store.{IsValid}
use latlearn.Registry.Init.{init_registry-IsValid, empty-IsValid}
use latlearn.State.{Latlearn, CommMsg}
use latlearn.Report.Host.{Host}
use latlearn.Server.{serve_start, serve_outer}
use latlearn.Server.Handlers.{serve_outer_total}
use latlearn.Server.Controls.{Control, control}
use latlearn.Api.{at_least, init_inner, init2}
use latlearn.Api.Queued.{
  Queued, ssu_a-Queued, ssu_a2-Queued, report2-Queued, benchmarks-Queued, call_values-Queued,
  stop-Queued,
}
use latlearn.System.{
  process_start, Step, Reach, initialises, configures, ends, ends_variant, asks_report,
  asks_benchmarks, asks_values, asks_stop, serve_starts, begins_self_sample, ends_self_sample,
  serves_outer, serves_inner, here, next,
}
use latlearn.System.Round.{channels, round-channels}
use latlearn.System.Numbered.{Numbered, IsNumbered, Numbered-sent, round-IsNumbered}

-- The registry is valid, nothing is ever in the inner channel, the outer one holds no more than its
-- capacity, `init_inner` has run once if and only if initialisation is completed, and no channel is
-- named that has not been made.
pub record Inv (l : Latlearn) : Type 0 where
  pub valid : IsValid l.registry
  pub unused : l.comm_inner ≡ []
  pub bounded : pos (length l.comm_outer) ≤ℤ l.cap_outer
  pub once : l.init_once ≡ l.init_completed
  pub numbered : IsNumbered l

pub process_start-Inv : Inv process_start
process_start-Inv = record {
  valid = empty-IsValid;
  unused = refl;
  bounded = omega arith;
  once = refl;
  numbered = record { queued = tt; done_made = tt; replied_made = tt };
}

pub init2_again :
    (l : Latlearn) (spans_app : List Bytes) (now : ℤ)
    → l.init_once ≡ true
    → init2 l spans_app now ≡ l
unfolding init2
init2_again l spans_app now e = ground arith

pub init2_first :
    (l : Latlearn) (spans_app : List Bytes) (now : ℤ)
    → l.init_once ≡ false
    → l.init_completed ≡ false
    → init2 l spans_app now ≡ record l {
      registry = init_registry spans_app;
      outer_queue_capacity = at_least (pos 100) l.outer_queue_capacity;
      inner_queue_capacity = at_least (pos 10) l.inner_queue_capacity;
      cap_outer = at_least (pos 100) l.outer_queue_capacity;
      cap_inner = at_least (pos 10) l.inner_queue_capacity;
      comm_outer = [];
      comm_inner = [];
      init_time = now;
      init_completed = true;
      init_once = true;
    }
unfolding init2 init_inner
init2_first l spans_app now e f = ground arith

init2-Inv : (l : Latlearn) (spans_app : List Bytes) (now : ℤ) → Inv l → Inv (init2 l spans_app now)
init2-Inv l spans_app now v = elim (Bool-cases l.init_once) [
  | inl e ↦ rw (init2_again l spans_app now e) v
  | inr e ↦ subst Inv (sym (init2_first l spans_app now e (sym v.once ∙ e))) (record {
    valid = init_registry-IsValid spans_app;
    unused = refl;
    bounded = ground arith;
    once = refl;
    numbered = record {
      queued = tt;
      done_made = v.numbered.done_made;
      replied_made = v.numbered.replied_made;
    };
  })
]

pub Queued-Inv : (l m : Latlearn) → Queued l m → Inv l → Inv m
Queued-Inv l m (inl e) v = rw e v
Queued-Inv l m (inr (msg, n, o, room, e, more, made)) v = subst Inv (sym e) (record {
  valid = v.valid;
  unused = v.unused;
  bounded = ground (arith, length-append {0} l.comm_outer (msg ∷ []));
  once = v.once;
  numbered =
      Numbered-sent l.next_chan n l.comm_outer l.done_chans (control l).replied msg more made
        v.numbered;
})

channels-Inv :
    (l m : Latlearn) → channels m ≡ channels l → Inv l → IsValid m.registry → IsNumbered m → Inv m
channels-Inv l m k v valid numbered = record {
  valid = valid;
  unused = ap (λ (c : Control). c.comm_inner) k ∙ v.unused;
  bounded = subst (λ (c : Control). pos (length c.comm_outer) ≤ℤ c.cap_outer) (sym k) v.bounded;
  once = subst (λ (c : Control). c.init_once ≡ c.init_completed) (sym k) v.once;
  numbered = numbered;
}

served-IsValid :
    (o : Option Latlearn) (m : Latlearn)
    → (n : Latlearn) × (o ≡ some n) × IsValid n.registry
    → o ≡ some m
    → IsValid m.registry
served-IsValid o m (n, e, v) f =
    let same : n ≡ m = ground arith in subst (λ (x : Latlearn). IsValid x.registry) same v

serve_outer-Inv :
    (h : Host) (clock : ℕ → ℤ) (l m : Latlearn) (msg : CommMsg) (rest : List CommMsg)
    → l.comm_outer ≡ msg ∷ rest
    → serve_outer h clock l msg rest ≡ some m
    → Inv l
    → Inv m
unfolding serve_outer
serve_outer-Inv h clock l m msg rest q e v =
    let before : Numbered l.next_chan (msg ∷ rest) l.done_chans (control l).replied =
      subst (λ ms. Numbered l.next_chan ms l.done_chans (control l).replied) q v.numbered in
    channels-Inv (record l { comm_outer = rest }) m
      (round-channels h clock (record l { comm_outer = rest }) msg m e)
      (record {
        valid = v.valid;
        unused = v.unused;
        bounded = omega (arith, v.bounded, ap length q);
        once = v.once;
        numbered = record {
          queued = before.queued.1;
          done_made = before.done_made;
          replied_made = before.replied_made;
        };
      })
      (served-IsValid _ m (serve_outer_total h clock l msg rest v.valid) e)
      (round-IsNumbered h clock l m msg rest e before)

-- Every step of the process keeps the invariant.
pub Step-Inv : (h : Host) {l m : Latlearn} → Step h l m → Inv l → Inv m
Step-Inv h {l} (initialises spans_app now) v = init2-Inv l spans_app now v
Step-Inv h (configures outer inner builtins subtract path) v = record {
  valid = v.valid;
  unused = v.unused;
  bounded = v.bounded;
  once = v.once;
  numbered = v.numbered;
}
Step-Inv h {l} {m} (ends ssu ssu' now ok e) v =
    Queued-Inv l m (ssu_a-Queued l ssu now m ssu' ok e) v
Step-Inv h {l} {m} (ends_variant ssu ssu' variant now ok e) v =
    Queued-Inv l m (ssu_a2-Queued l ssu variant now m ssu' ok e) v
Step-Inv h {l} {m} (asks_report params chan e) v =
    Queued-Inv l m (report2-Queued l m params chan e) v
Step-Inv h {l} {m} (asks_benchmarks chan e) v = Queued-Inv l m (benchmarks-Queued l m chan e) v
Step-Inv h {l} {m} (asks_values span chan e) v =
    Queued-Inv l m (call_values-Queued l m span chan e) v
Step-Inv h {l} {m} (asks_stop ok e) v = Queued-Inv l m (stop-Queued l m ok e) v
Step-Inv h begins_self_sample v = record {
  valid = v.valid;
  unused = v.unused;
  bounded = v.bounded;
  once = v.once;
  numbered = v.numbered;
}
Step-Inv h (ends_self_sample true) v = record {
  valid = v.valid;
  unused = v.unused;
  bounded = v.bounded;
  once = v.once;
  numbered = v.numbered;
}
Step-Inv h (ends_self_sample false) v = record {
  valid = v.valid;
  unused = v.unused;
  bounded = v.bounded;
  once = v.once;
  numbered = v.numbered;
}
Step-Inv h (serve_starts _ _) v =
    unfold serve_start in
    record {
      valid = v.valid;
      unused = v.unused;
      bounded = v.bounded;
      once = v.once;
      numbered = v.numbered;
    }
Step-Inv h {l} {m} (serves_outer clock msg rest _ _ q e) v =
    serve_outer-Inv h clock l m msg rest q e v
Step-Inv h (serves_inner clock msg rest _ _ q e) v = absurd (ground (arith, v.unused))

-- In every state that the process reaches, in whatever order the goroutines run, the registry is
-- valid, `comm_inner` is empty, `comm_outer` holds no more messages than its capacity, `init_oncer`
-- has been used exactly when initialisation is completed, and each channel that a queued message or an
-- answer names has been made by a call.
pub Reach-Inv : (h : Host) {l : Latlearn} → Reach h process_start l → Inv l
Reach-Inv h r = go r process_start-Inv
  where
    go : {k l : Latlearn} → Reach h k l → Inv k → Inv l
    go here v = v
    go (next r s) v = Step-Inv h s (go r v)
