-- ===== src/System/Progress.antt =====
-- `serve` gets through its queue: each round takes the oldest message, until a stop.
use latlearn.Common.{
  ℕ, ◌≡◌, refl, sym, ap, ◌∙◌, ℤ, Bool, true, false, List, [], ◌∷◌, ◌++◌, append_assoc, append-nil,
  codes, ◌==◌, if◌then◌else◌, arith, All, Option, none, some,
}
use latlearn.State.{Latlearn, CommMsg}
use latlearn.Report.Host.{Host}
use latlearn.Server.{serve_outer, go_on, handle_comm_msg, handle_msg_values, handle_msg_report}
use latlearn.Server.Frame.{handle_comm_msg-Keeps}
use latlearn.Server.Controls.{Control}
use latlearn.Server.Handlers.{serve_outer_total}
use latlearn.System.{process_start, Step, Reach, serves_outer, here, next}
use latlearn.System.Invariant.{Inv, Step-Inv, Reach-Inv}
use latlearn.System.Round.{finish-some, round-channels}
use latlearn.System.Order.{handled_by, all_handled, sent_by, all_sent}

-- One run after another.
pub joined : {h : Host} {l m n : Latlearn} → Reach h l m → Reach h m n → Reach h l n
joined r here = r
joined r (next q s) = next (joined r q) s

all_handled-joined :
    {h : Host} {l m n : Latlearn} (r : Reach h l m) (q : Reach h m n)
    → all_handled (joined r q) ≡ all_handled r ++ all_handled q
unfolding all_handled joined
all_handled-joined r here = sym (append-nil (all_handled r))
all_handled-joined r (next q s) =
    ap (λ ms. ms ++ handled_by s) (all_handled-joined r q)
    ∙ append_assoc (all_handled r) (all_handled q) (handled_by s)

pub all_sent-joined :
    {h : Host} {l m n : Latlearn} (r : Reach h l m) (q : Reach h m n)
    → all_sent (joined r q) ≡ all_sent r ++ all_sent q
unfolding all_sent joined
all_sent-joined r here = sym (append-nil (all_sent r))
all_sent-joined r (next q s) =
    ap (λ ms. ms ++ sent_by s) (all_sent-joined r q)
    ∙ append_assoc (all_sent r) (all_sent q) (sent_by s)

abbrev pub is_stop : CommMsg → Bool
is_stop msg = msg.ttype == codes "stop"

-- A handler that does not ask `serve` to return.
abbrev GoesOn : Option (Latlearn × Bool) → Type 0
GoesOn none = Unit {0}
GoesOn (some (l, stop)) = stop ≡ false

go_on-GoesOn : (o : Option Latlearn) → GoesOn (go_on o)
go_on-GoesOn none = tt
go_on-GoesOn (some l) = refl

either :
    (b : Bool) (x y : Option (Latlearn × Bool)) → GoesOn x → GoesOn y → GoesOn (if b then x else y)
either true x y s t = s
either false x y s t = t

handle_comm_msg-GoesOn :
    (h : Host) (clock : ℕ → ℤ) (l : Latlearn) (msg : CommMsg)
    → is_stop msg ≡ false
    → GoesOn (handle_comm_msg h clock l msg)
unfolding handle_comm_msg
handle_comm_msg-GoesOn h clock l msg e = rw e (
    either (msg.ttype == codes "A") _ _ refl (
      either (msg.ttype == codes "values") _ _ (go_on-GoesOn (handle_msg_values l msg)) (
        either (msg.ttype == codes "benchmarks") _ _ refl (
          either (msg.ttype == codes "report") _ _ (go_on-GoesOn (handle_msg_report h clock l msg))
            refl))))

-- The state in which `serve` runs and its queue holds `msgs`.
pub record Running (l : Latlearn) (msgs : List CommMsg) : Type 0 where
  pub started : l.serve_started ≡ true
  pub unfinished : l.serve_finished ≡ false
  pub queue : l.comm_outer ≡ msgs

goes_on :
    (o : Option (Latlearn × Bool)) (m m' : Latlearn) (b : Bool)
    → GoesOn o
    → o ≡ some (m', b)
    → m ≡ (if b then record m' { serve_finished = true } else m')
    → m ≡ m'
goes_on none m m' b g e f = absurd (ground arith)
goes_on (some (n, c)) m m' b g e f = let off : b ≡ false = ground arith in rw off at f

pub round-Running :
    (h : Host) (clock : ℕ → ℤ) (l m : Latlearn) (msg : CommMsg) (rest : List CommMsg)
    → is_stop msg ≡ false
    → Running l (msg ∷ rest)
    → serve_outer h clock l msg rest ≡ some m
    → Running m rest
unfolding serve_outer
round-Running h clock l m msg rest e v s =
    let (m', b, f, g) = finish-some _ m s in
    let same =
      goes_on _ m m' b (handle_comm_msg-GoesOn h clock (record l { comm_outer = rest }) msg e) f
        g in
    let k = round-channels h clock (record l { comm_outer = rest }) msg m s in
    let fin = handle_comm_msg-Keeps h clock (record l { comm_outer = rest }) msg in
    record {
      started = ap (λ (c : Control). c.serve_started) k ∙ v.started;
      unfinished =
          ap (λ (x : Latlearn). x.serve_finished) same
          ∙ ap (λ (c : Control). c.serve_finished) (rw f at fin)
          ∙ v.unfinished;
      queue = ap (λ (c : Control). c.comm_outer) k;
    }

-- A run in which `serve` handles the messages `msgs`, to an empty queue.
abbrev pub Drained : Host → Latlearn → List CommMsg → Type 0
Drained h l msgs = (m : Latlearn) × (r : Reach h l m) × (m.comm_outer ≡ []) × (all_handled r ≡ msgs)

drained :
    (h : Host) (clock : ℕ → ℤ) (msgs : List CommMsg) (l : Latlearn)
    → Inv l
    → Running l msgs
    → All (λ msg. is_stop msg ≡ false) msgs
    → Drained h l msgs
unfolding all_handled handled_by
drained h clock [] l v run a = (l, here, run.queue, refl)
drained h clock (msg ∷ rest) l v run a =
    let (m, e, valid) = serve_outer_total h clock l msg rest v.valid in
    let s : Step h l m = serves_outer clock msg rest run.started run.unfinished run.queue e in
    let (n, q, empty, handled) =
      drained h clock rest m (Step-Inv h s v) (round-Running h clock l m msg rest a.0 run e) a.1 in
    (
      n,
      joined (next here s) q,
      empty,
      all_handled-joined (next here s) q ∙ ap (λ xs. msg ∷ xs) handled,
    )

-- From every state that the process reaches in which `serve` runs and no stop is queued, there is a
-- run in which it handles just the queued messages, each once and in order, and that ends with an
-- empty queue.
pub Reach-Drained :
    (h : Host) (clock : ℕ → ℤ) (l : Latlearn)
    → Reach h process_start l
    → l.serve_started ≡ true
    → l.serve_finished ≡ false
    → All (λ msg. is_stop msg ≡ false) l.comm_outer
    → Drained h l l.comm_outer
Reach-Drained h clock l r started unfinished no_stop =
    drained h clock l.comm_outer l (Reach-Inv h r)
      (record { started = started; unfinished = unfinished; queue = refl }) no_stop
