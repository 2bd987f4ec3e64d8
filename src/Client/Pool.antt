-- ===== src/Client/Pool.antt =====
-- Goroutines of an application: programs whose calls are interleaved in any order.
pub mod Tally
pub mod Owed
use latlearn.Common.{◌≡◌, some, List, ◌∷◌}
use latlearn.Client.{Call, Answer, Program, returns, calls, Env, World, perform}
use latlearn.Client.Runs.{Sent, Sent-none, Sent-joined, perform-Sent}

-- A goroutine makes its next call, or is finished and gone.
pub data Advance (e : Env) (w : World)
    : List (Program (Unit {0})) → List (Program (Unit {0})) → World → Type 0 where
  makes_call :
      (c : Call) (k : Answer c → Program (Unit {0})) (a : Answer c) (v : World)
      (ps : List (Program (Unit {0})))
      → perform e c w ≡ some (a, v)
      → Advance e w (calls c k ∷ ps) (k a ∷ ps) v
  finishes : (ps : List (Program (Unit {0}))) → Advance e w (returns tt ∷ ps) ps w
  another :
      (p : Program (Unit {0})) {ps qs : List (Program (Unit {0}))} {v : World}
      → Advance e w ps qs v
      → Advance e w (p ∷ ps) (p ∷ qs) v

-- From the goroutines and the world to `qs` and `v`.
pub data Interleaving (e : Env) (qs : List (Program (Unit {0}))) (v : World)
    : List (Program (Unit {0})) → World → Type 0 where
  over : Interleaving e qs v qs v
  then_on :
      {ps rs : List (Program (Unit {0}))} {w u : World}
      → Advance e w ps rs u
      → Interleaving e qs v rs u
      → Interleaving e qs v ps w

Advance-Sent :
    (e : Env) {w v : World} {ps qs : List (Program (Unit {0}))} → Advance e w ps qs v → Sent e w v
Advance-Sent e {w} (makes_call c k a v ps q) = perform-Sent e c w a v q
Advance-Sent e {w} (finishes ps) = Sent-none e w
Advance-Sent e (another p s) = Advance-Sent e s

-- Goroutines, in whatever order they call latlearn, run the process by its steps, and send the samples
-- that they end.
pub Interleaving-Sent :
    (e : Env) {v : World} {qs : List (Program (Unit {0}))} {w : World}
    {ps : List (Program (Unit {0}))}
    → Interleaving e qs v ps w
    → Sent e w v
Interleaving-Sent e {w = w} over = Sent-none e w
Interleaving-Sent e {v} {w = w} (then_on {u = u} s i) =
    Sent-joined e w u v (Advance-Sent e s) (Interleaving-Sent e i)
