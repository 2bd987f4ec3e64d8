-- ===== src/Client/Pool/Owed.antt =====
-- What goroutines owe of the samples that a tally measures, and end when all are finished.
use latlearn.Common.{
  ℕ, ◌+◌, ◌≡◌, refl, sym, subst, ◌∙◌, Bytes, ℤ, Bool, true, false, none, some, List, [], ◌∷◌, arith,
}
use latlearn.Client.{
  Call, now, end_span, Answer, Program, returns, calls, call, ◌>>=◌, ◌>>◌, Env, World, perform,
}
use latlearn.Client.Total.{is_stop_call, perform-Finishes}
use latlearn.Client.Outcome.{Ready, Outcome, Any, run-call}
use latlearn.Client.Outcome.Samples.{Begun, Measured, end_fresh-Outcome}
use latlearn.Client.Outcome.Calls.{is_quiet, quiet_no_stop, quiet-Outcome}
use latlearn.Client.Programs.{call_b2, call_a}
use latlearn.Span.{before, ssu_before}
use latlearn.Client.Pool.Tally.{Tally, Gained, Gained-none, Gained-sum}
use latlearn.Span.{SpanSampleUnderway}
use latlearn.Client.Pool.{Advance, makes_call, finishes, another, Interleaving, over, then_on}

module _ (e : Env) (t : Tally) where
  -- What a program has still to end, wherever its calls find an initialised latlearn.
  abbrev pub Owes : Program (Unit {0}) → ℕ → Type 0
  Owes (returns a) n = n ≡ 0
  Owes (calls c k) n =
      (is_stop_call c ≡ false)
      × ((w v : World) (a : Answer c)
          → Ready w.latlearn
          → perform e c w ≡ some (a, v)
          → (i : ℕ) × (j : ℕ) × (n ≡ i + j) × Gained t w i v × Owes (k a) j)

  abbrev pub AllOwe : List (Program (Unit {0})) → ℕ → Type 0
  AllOwe [] n = n ≡ 0
  AllOwe (p ∷ ps) n = (i : ℕ) × (j : ℕ) × (n ≡ i + j) × Owes p i × AllOwe ps j

  Advance-Gained :
      {w v : World} {ps qs : List (Program (Unit {0}))} (n : ℕ)
      → Advance e w ps qs v
      → Ready w.latlearn
      → AllOwe ps n
      → (i : ℕ) × (j : ℕ) × (n ≡ i + j) × Gained t w i v × AllOwe qs j
  Advance-Gained {w} n (makes_call c k a v ps q) ready (i, j, sum, owes, rest) =
      let (i', j', sum', gained, later) = owes.1 w v a ready q in
      (i', j' + j, omega arith, gained, (j', j, refl, later, rest))
  Advance-Gained {w} n (finishes ps) ready (i, j, sum, owes, rest) =
      (0, j, omega (arith, owes), Gained-none t w ready, rest)
  Advance-Gained n (another p s) ready (i, j, sum, owes, rest) =
      let (i', j', sum', gained, later) = Advance-Gained j s ready rest in
      (i', i + j', omega arith, gained, (i, j', refl, owes, later))

  -- However far they have got, they have ended a part of what they owed, and owe the rest.
  pub Interleaving-AllOwe :
      {v : World} {qs : List (Program (Unit {0}))} {w : World} {ps : List (Program (Unit {0}))}
      (n : ℕ)
      → Interleaving e qs v ps w
      → Ready w.latlearn
      → AllOwe ps n
      → (i : ℕ) × (j : ℕ) × (n ≡ i + j) × Gained t w i v × AllOwe qs j
  Interleaving-AllOwe {w = w} n over ready owe = (0, n, omega arith, Gained-none t w ready, owe)
  Interleaving-AllOwe {v} {w = w} n (then_on {u = u} s run_on) ready owe =
      let (i, k, sum, gained, later) = Advance-Gained n s ready owe in
      let (i', j, sum', gained', rest) = Interleaving-AllOwe k run_on gained.ready later in
      (i + i', j, omega arith, Gained-sum t w u v i i' gained gained', rest)

  -- When all are finished, they have ended what they owed.
  pub Interleaving-Gained :
      {v w : World} {ps : List (Program (Unit {0}))} (n : ℕ)
      → Interleaving e [] v ps w
      → Ready w.latlearn
      → AllOwe ps n
      → Gained t w n v
  Interleaving-Gained {v} {w} n run_on ready owe =
      let (i, j, sum, gained, none_left) = Interleaving-AllOwe n run_on ready owe in
      let all : i ≡ n = omega (arith, none_left) in subst (λ k. Gained t w k v) all gained

  finish_one :
      (p : Program (Unit {0})) (ps qs : List (Program (Unit {0}))) (w : World) (n : ℕ)
      → Ready w.latlearn
      → Owes p n
      → ((v : World) → Ready v.latlearn → (u : World) × Interleaving e qs u ps v)
      → (u : World) × Interleaving e qs u (p ∷ ps) w
  finish_one (returns tt) ps qs w n ready owes go =
      let (u, i) = go w ready in (u, then_on (finishes ps) i)
  finish_one (calls c k) ps qs w n ready owes go =
      let (a, v, q, calm) = perform-Finishes e c w owes.0 ready.0 in
      let (i, j, sum, gained, later) = owes.1 w v a ready q in
      let (u, run_on) = finish_one (k a) ps qs v j gained.ready later go in
      (u, then_on (makes_call c k a v ps q) run_on)

  -- They can all finish, in one order at least.
  pub all_finish :
      (ps : List (Program (Unit {0}))) (w : World) (n : ℕ)
      → Ready w.latlearn
      → AllOwe ps n
      → (v : World) × Interleaving e [] v ps w
  all_finish [] w n ready owe = (w, over)
  all_finish (p ∷ ps) w n ready (i, j, sum, owes, rest) =
      finish_one p ps [] w i ready owes (λ v r. all_finish ps v j r rest)

  -- A call by its outcome.
  pub call_owes :
      (c : Call) (w v : World) (a : Answer c) (P : Answer c → Type 0) (ks : List (Bytes × Bytes))
      (i : ℕ)
      → Outcome e (call c) w P ks
      → t.Amount ks i
      → perform e c w ≡ some (a, v)
      → Gained t w i v × P a
  call_owes c w v a P ks i o amount q =
      let same : some (o.answer, o.world) ≡ some (a, v) = sym o.runs ∙ run-call e c w v a q in
      let pair : (o.answer, o.world) ≡ (a, v) = ground arith in
      subst (λ (r : Answer c × World). Gained t w i r.1 × P r.0) pair
        (record { ready = o.ready; new = ks; ended = o.ended; amount = amount }, o.holds)

  pub quiet-Owes :
      (c : Call) (k : Answer c → Program (Unit {0})) (n : ℕ)
      → is_quiet c ≡ true
      → ((a : Answer c) → Owes (k a) n)
      → Owes (calls c k) n
  quiet-Owes c k n quiet go = (
    quiet_no_stop c quiet,
    λ w v a ready q.
        let (gained, p) =
          call_owes c w v a Any [] 0 (quiet-Outcome e c w quiet ready) t.amount_none q in
        (0, n, omega arith, gained, go a),
  )

  -- A sample that is underway, what it amounts to, and what is owed after its end.
  pub end-Owes :
      (name variant : Bytes) (ssu : SpanSampleUnderway)
      (k : SpanSampleUnderway × Bool → Program (Unit {0})) (m n : ℕ)
      → Begun name variant ssu
      → t.Amount ((name, variant) ∷ []) m
      → ((a : SpanSampleUnderway × Bool) → Owes (k a) n)
      → Owes (calls (end_span none ssu) k) (m + n)
  end-Owes name variant ssu k m n begun amount go = (
    refl,
    λ w v a ready q.
        let (gained, p) =
          call_owes (end_span none ssu) w v a Measured ((name, variant) ∷ []) m
            (end_fresh-Outcome e none ssu w name variant ready begun) amount q in
        (m, n, refl, gained, go a),
  )

  pub before-Begun :
      (name variant : Bytes) (begun : ℤ) → Begun name variant (ssu_before name variant begun)
  before-Begun name variant begun =
      unfold ssu_before before in record { name = refl; variant = refl; fresh = refl }

  -- A span that is measured once.
  pub span-Owes :
      (name variant : Bytes) (p : Program (Unit {0})) (m n : ℕ)
      → t.Amount ((name, variant) ∷ []) m
      → Owes p n
      → Owes (call_b2 name variant >>= λ ssu. call_a ssu >> p) (m + n)
  span-Owes name variant p m n amount owes =
      quiet-Owes now (λ i. call_a (ssu_before name variant i) >> p) (m + n) refl
        (λ i.
          end-Owes name variant (ssu_before name variant i) (λ a. p) m n
            (before-Begun name variant i) amount (λ a. owes))
