-- ===== src/Apps/App5/Done.antt =====
-- The contexts of example-app5.go: that `main` ends them all, and what the workers do then.
use latlearn.Common.{
  All-weaker, ℕ, ◌≡◌, ◌⊎◌, inl, inr, subst, Bool, true, false, ◌||◌, List, ◌∷◌, All, eqb, arith,
}
use latlearn.Client.{World, Env}
use latlearn.Apps.App5.{
  Context, background, with_cancel, with_timeout, with_value, is_done, Worker, Orchestration, over,
  makes_cancel, makes_timeout, starts, sleeps, reports, cancels,
}
use latlearn.Apps.App5.Process.{
  Process, Move, makes_call, goes_on, breaks, another, ProcessStep, main_makes_cancel,
  main_makes_timeout, main_starts, main_sleeps, main_reports, main_cancels, timer_fires,
  worker_moves, Runs, here, step_on,
}

-- Whether a context ends with the one of that number.
abbrev pub hangs_on : ℕ → Context → Bool
hangs_on id background = false
hangs_on id (with_cancel i parent) = eqb i id || hangs_on id parent
hangs_on id (with_timeout i parent) = eqb i id || hangs_on id parent
hangs_on id (with_value span_name parent) = hangs_on id parent

-- `main` calls the `cancel` of that context.
abbrev pub WillCancel : ℕ → Orchestration → Type 0
WillCancel id (over ok) = ⊥
WillCancel id (reports next) = (ok : Bool) → WillCancel id (next ok)
WillCancel id (makes_cancel next) = (i : ℕ) → WillCancel id (next i)
WillCancel id (makes_timeout timeout next) = (i : ℕ) → WillCancel id (next i)
WillCancel id (starts ctx next) = WillCancel id next
WillCancel id (sleeps duration next) = WillCancel id next
WillCancel id (cancels i next) = (i ≡ id) ⊎ WillCancel id next

abbrev pub WillEnd : Context → Orchestration → Type 0
WillEnd ctx main = (id : ℕ) × (hangs_on id ctx ≡ true) × WillCancel id main

-- `main` ends the context of each worker that it starts, and these contexts are `P`.
abbrev pub Tidy : (Context → Type 0) → Orchestration → Type 0
Tidy P (over ok) = Unit
Tidy P (reports next) = (ok : Bool) → Tidy P (next ok)
Tidy P (makes_cancel next) = (i : ℕ) → Tidy P (next i)
Tidy P (makes_timeout timeout next) = (i : ℕ) → Tidy P (next i)
Tidy P (starts ctx next) = P ctx × WillEnd ctx next × Tidy P next
Tidy P (sleeps duration next) = Tidy P next
Tidy P (cancels i next) = Tidy P next

-- A worker whose context has ended or will be ended by `main`.
abbrev pub Covered : List ℕ → Orchestration → Worker → Type 0
Covered ended main worker = (is_done ended worker.ctx ≡ true) ⊎ WillEnd worker.ctx main

pub record InHand (P : Context → Type 0) (p : Process) : Type 0 where
  pub tidy : Tidy P p.main
  pub known : All (λ (worker : Worker). P worker.ctx) p.workers
  pub covered : All (Covered p.ended p.main) p.workers

is_done-hangs_on :
    (ended : List ℕ) (id : ℕ) (ctx : Context)
    → hangs_on id ctx ≡ true
    → is_done (id ∷ ended) ctx ≡ true
unfolding is_done
is_done-hangs_on ended id background h = ground arith
is_done-hangs_on ended id (with_cancel i parent) h =
    ground (arith, is_done-hangs_on ended id parent)
is_done-hangs_on ended id (with_timeout i parent) h =
    ground (arith, is_done-hangs_on ended id parent)
is_done-hangs_on ended id (with_value span_name parent) h = is_done-hangs_on ended id parent h

pub is_done-more :
    (ended : List ℕ) (id : ℕ) (ctx : Context)
    → is_done ended ctx ≡ true
    → is_done (id ∷ ended) ctx ≡ true
unfolding is_done
is_done-more ended id background h = ground arith
is_done-more ended id (with_cancel i parent) h = ground (arith, is_done-more ended id parent)
is_done-more ended id (with_timeout i parent) h = ground (arith, is_done-more ended id parent)
is_done-more ended id (with_value span_name parent) h = is_done-more ended id parent h

-- A step of `main` that cancels nothing.
carried :
    (ended : List ℕ) (main next : Orchestration) (ws : List Worker)
    → ((id : ℕ) → WillCancel id main → WillCancel id next)
    → All (Covered ended main) ws
    → All (Covered ended next) ws
carried ended main next ws f =
    All-weaker (Covered ended main) (Covered ended next) ws
      λ w c. elim c [ inl done ↦ inl done | inr (id, on, will) ↦ inr (id, on, f id will) ]

cancelled :
    (ended : List ℕ) (id : ℕ) (next : Orchestration) (worker : Worker)
    → Covered ended (cancels id next) worker
    → Covered (id ∷ ended) next worker
cancelled ended id next worker (inl done) = inl (is_done-more ended id worker.ctx done)
cancelled ended id next worker (inr (i, on, inl same)) =
    inl (is_done-hangs_on ended id worker.ctx (rw same on))
cancelled ended id next worker (inr (i, on, inr will)) = inr (i, on, will)

fired :
    (ended : List ℕ) (id : ℕ) (main : Orchestration) (worker : Worker)
    → Covered ended main worker
    → Covered (id ∷ ended) main worker
fired ended id main worker (inl done) = inl (is_done-more ended id worker.ctx done)
fired ended id main worker (inr will) = inr will

module _ {e : Env} where
  pub Move-All :
      {ended : List ℕ} {w v : World} {ws vs : List Worker} (Q : Context → Type 0)
      → Move e ended w ws vs v
      → All (λ (worker : Worker). Q worker.ctx) ws
      → All (λ (worker : Worker). Q worker.ctx) vs
  Move-All Q (makes_call ctx c k a v ws q) all = all
  Move-All Q (goes_on ctx ws q) all = all
  Move-All Q (breaks ctx ws q) all = all.1
  Move-All Q (another worker m) all = (all.0, Move-All Q m all.1)

module _ {e : Env} {P : Context → Type 0} where
  ProcessStep-InHand : {p q : Process} → ProcessStep e p q → InHand P p → InHand P q
  ProcessStep-InHand {p} (main_makes_cancel next q) h =
      let t : Tidy P (makes_cancel next) = subst (Tidy P) q h.tidy in
      let c = subst (λ m. All (Covered p.ended m) p.workers) q h.covered in
      record {
        tidy = t p.next_id;
        known = h.known;
        covered =
            carried p.ended (makes_cancel next) (next p.next_id) p.workers
              (λ id will. will p.next_id) c;
      }
  ProcessStep-InHand {p} (main_makes_timeout timeout next q) h =
      let t : Tidy P (makes_timeout timeout next) = subst (Tidy P) q h.tidy in
      let c = subst (λ m. All (Covered p.ended m) p.workers) q h.covered in
      record {
        tidy = t p.next_id;
        known = h.known;
        covered =
            carried p.ended (makes_timeout timeout next) (next p.next_id) p.workers
              (λ id will. will p.next_id) c;
      }
  ProcessStep-InHand {p} (main_starts ctx next q) h =
      let t : Tidy P (starts ctx next) = subst (Tidy P) q h.tidy in
      let c = subst (λ m. All (Covered p.ended m) p.workers) q h.covered in
      record {
        tidy = t.2;
        known = (t.0, h.known);
        covered = (inr t.1, carried p.ended (starts ctx next) next p.workers (λ id will. will) c);
      }
  ProcessStep-InHand {p} (main_sleeps duration next v q r) h =
      let t : Tidy P (sleeps duration next) = subst (Tidy P) q h.tidy in
      let c = subst (λ m. All (Covered p.ended m) p.workers) q h.covered in
      record {
        tidy = t;
        known = h.known;
        covered = carried p.ended (sleeps duration next) next p.workers (λ id will. will) c;
      }
  ProcessStep-InHand {p} (main_reports next ok v q r) h =
      let t : Tidy P (reports next) = subst (Tidy P) q h.tidy in
      let c = subst (λ m. All (Covered p.ended m) p.workers) q h.covered in
      record {
        tidy = t ok;
        known = h.known;
        covered = carried p.ended (reports next) (next ok) p.workers (λ id will. will ok) c;
      }
  ProcessStep-InHand {p} (main_cancels id next q) h =
      let t : Tidy P (cancels id next) = subst (Tidy P) q h.tidy in
      let c = subst (λ m. All (Covered p.ended m) p.workers) q h.covered in
      record {
        tidy = t;
        known = h.known;
        covered =
            All-weaker (Covered p.ended (cancels id next)) (Covered (id ∷ p.ended) next) p.workers
              (cancelled p.ended id next) c;
      }
  ProcessStep-InHand {p} (timer_fires id q) h = record {
    tidy = h.tidy;
    known = h.known;
    covered =
        All-weaker (Covered p.ended p.main) (Covered (id ∷ p.ended) p.main) p.workers
          (fired p.ended id p.main) h.covered;
  }
  ProcessStep-InHand {p} (worker_moves m) h = record {
    tidy = h.tidy;
    known = Move-All P m h.known;
    covered = Move-All (λ ctx. (is_done p.ended ctx ≡ true) ⊎ WillEnd ctx p.main) m h.covered;
  }

  pub Runs-InHand : {p q : Process} → Runs e p q → InHand P p → InHand P q
  Runs-InHand here h = h
  Runs-InHand (step_on r s) h = ProcessStep-InHand s (Runs-InHand r h)
