-- ===== src/System/Round.antt =====
-- One round of `serve`, as its handler leaves the state.
use latlearn.Common.{
  ◌++◌, ℕ, ◌≡◌, refl, ap, ◌∙◌, ℤ, Bool, true, false, [], if◌then◌else◌, arith, Option, none, some,
}
use latlearn.State.{Latlearn, CommMsg}
use latlearn.Report.Host.{Host}
use latlearn.Server.{handle_comm_msg, finish}
use latlearn.Server.Frame.{handle_comm_msg-Keeps}
use latlearn.Server.Controls.{Control, control, answered, dones, replies}

-- A round of `serve` that takes the message out of a channel first, `l` being the state without it.
pub finish-some :
    (o : Option (Latlearn × Bool)) (m : Latlearn)
    → finish o ≡ some m
    → (m' : Latlearn) × (stop : Bool) × (o ≡ some (m', stop))
      × (m ≡ (if stop then record m' { serve_finished = true } else m'))
finish-some none m e = absurd (ground arith)
finish-some (some (m', b)) m e = (m', b, refl, ground arith)

-- The channels and flags but for `serve_finished` and the answers.
abbrev pub channels : Latlearn → Control
channels l = record (control l) { serve_finished = false; done_chans = []; replied = [] }

channels-finish :
    (l m m' : Latlearn) (b : Bool) (msg : CommMsg)
    → control m' ≡ answered msg (control l)
    → m ≡ (if b then record m' { serve_finished = true } else m')
    → channels m ≡ channels l
channels-finish l m m' true msg k e =
    ap channels e
    ∙ ap (λ (c : Control). record c { serve_finished = false; done_chans = []; replied = [] }) k
channels-finish l m m' false msg k e =
    ap channels e
    ∙ ap (λ (c : Control). record c { serve_finished = false; done_chans = []; replied = [] }) k

answers-finish :
    (m m' : Latlearn) (b : Bool)
    → m ≡ (if b then record m' { serve_finished = true } else m')
    → ((control m).done_chans ≡ (control m').done_chans)
      × ((control m).replied ≡ (control m').replied)
answers-finish m m' true e = (ap (λ x. (control x).done_chans) e, ap (λ x. (control x).replied) e)
answers-finish m m' false e = (ap (λ x. (control x).done_chans) e, ap (λ x. (control x).replied) e)

-- After a round that has taken the message out of its channel, the answers are those of the message.
pub round-answers :
    (h : Host) (clock : ℕ → ℤ) (l : Latlearn) (msg : CommMsg) (m : Latlearn)
    → finish (handle_comm_msg h clock l msg) ≡ some m
    → ((control m).done_chans ≡ dones msg ++ l.done_chans)
      × ((control m).replied ≡ replies msg ++ (control l).replied)
round-answers h clock l msg m e =
    let (m', b, f, g) = finish-some _ m e in
    let k : control m' ≡ answered msg (control l) = rw f at (handle_comm_msg-Keeps h clock l msg) in
    (
      (answers-finish m m' b g).0 ∙ ap (λ (c : Control). c.done_chans) k,
      (answers-finish m m' b g).1 ∙ ap (λ (c : Control). c.replied) k,
    )

-- A round leaves the channels and flags as they are, the message apart.
pub round-channels :
    (h : Host) (clock : ℕ → ℤ) (l : Latlearn) (msg : CommMsg) (m : Latlearn)
    → finish (handle_comm_msg h clock l msg) ≡ some m
    → channels m ≡ channels l
round-channels h clock l msg m e =
    let (m', b, f, g) = finish-some _ m e in
    channels-finish l m m' b msg (rw f at (handle_comm_msg-Keeps h clock l msg)) g
