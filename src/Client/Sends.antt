-- ===== src/Client/Sends.antt =====
-- Runs of the process with the samples that are sent on the way.
use latlearn.Common.{
  gather, gather-append, ◌≡◌, refl, ap, ◌∙◌, subst, ℕ, Bool, true, false, Option, none, some, List,
  [], ◌∷◌, ◌++◌, append-nil, ◌==◌, if◌then◌else◌,
}
use latlearn.Registry.{Sample}
use latlearn.State.{Latlearn, CommMsg}
use latlearn.Span.{SpanSampleUnderway}
use latlearn.Report.Host.{Host}
use latlearn.Server.Own.{sample_of}
use latlearn.Api.Sent.{ended_msgs, request_msgs, stop_msgs}
use latlearn.System.{Step, Reach, here, next}
use latlearn.System.Order.{sent_by, all_sent}
use latlearn.System.Progress.{joined, all_sent-joined}
use latlearn.System.Statistics.{samples_of}

-- The samples as they reach the statistics, the newest first.
abbrev pub sample_ended : SpanSampleUnderway → List Sample
sample_ended ssu = record { name = ssu.name; variant = ssu.variant; t1 = ssu.t1; t2 = ssu.t2 } ∷ []

abbrev pub recorded : List SpanSampleUnderway → List Sample
recorded = gather sample_ended

pub record Sends (h : Host) (l m : Latlearn) (xs : List Sample) : Type 0 where
  pub reach : Reach h l m
  pub sent : samples_of (all_sent reach) ≡ xs

module _ (h : Host) where
  pub Sends-same : (l m : Latlearn) → l ≡ m → Sends h l m []
  Sends-same l m e =
      subst (λ k. Sends h l k []) e (record { reach = here; sent = unfold all_sent in refl })

  pub Sends-one :
      (l m : Latlearn) (s : Step h l m) (xs : List Sample)
      → samples_of (sent_by s) ≡ xs
      → Sends h l m xs
  unfolding all_sent
  Sends-one l m s xs e = record { reach = next here s; sent = e }

  pub Sends-joined :
      {l m n : Latlearn} {xs ys : List Sample}
      → Sends h l m xs
      → Sends h m n ys
      → Sends h l n (ys ++ xs)
  Sends-joined s t = record {
    reach = joined s.reach t.reach;
    sent =
        ap samples_of (all_sent-joined s.reach t.reach)
        ∙ gather-append sample_of (all_sent s.reach) (all_sent t.reach)
        ∙ (rw (s.sent, t.sent) refl);
  }

  -- After a part in which nothing was sent.
  pub Sends-later :
      {l m n : Latlearn} {ys : List Sample} → Sends h l m [] → Sends h m n ys → Sends h l n ys
  Sends-later {l} {n = n} {ys = ys} s t = subst (Sends h l n) (append-nil ys) (Sends-joined s t)

-- The messages of each call.
pub ended_samples :
    (ssu : SpanSampleUnderway) (ok : Bool)
    → samples_of (ended_msgs ssu ok) ≡ recorded (if ok then ssu ∷ [] else [])
unfolding sample_of ◌==◌
ended_samples ssu true = refl
ended_samples ssu false = refl

pub request_samples :
    (msg : ℕ → CommMsg) (chan : Option ℕ)
    → ((c : ℕ) → sample_of (msg c) ≡ [])
    → samples_of (request_msgs msg chan) ≡ []
request_samples msg none other = refl
request_samples msg (some chan) other = other chan

pub stop_samples : (ok : Bool) → samples_of (stop_msgs ok) ≡ []
unfolding sample_of ◌==◌
stop_samples true = refl
stop_samples false = refl
