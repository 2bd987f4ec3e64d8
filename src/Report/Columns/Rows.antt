-- ===== src/Report/Columns/Rows.antt =====
-- The bars of the header and of a row of the report.
use latlearn.Common.{ℕ, ◌+◌, ◌≤◌, ◌≡◌, refl, Bytes, true, [], ◌∷◌, ◌++◌, codes, arith, ℤ, pos, Bool}
use latlearn.Common.Int.{ltb_ℤ}
use latlearn.Learner.{LatencyLearner}
use latlearn.Report.Text.{rune_count, pad_left, pad_right}
use latlearn.Report.Row.{bar, row_blank, row_completed, comma, row_min, row_last, row_max, row_mean}
use latlearn.Report.Number.{number_grouped}
use latlearn.Report.Whole.{header}
use latlearn.Report.Columns.{
  IsAligned, IsCell, IsIn, NoBar, column-Starts, name-Starts, pad_left-IsCell, rune_count-pad_right,
}

-- A line of the report: its name, four times, and two more columns with the words before them.
line-IsAligned :
    (n we wf : ℕ) (name a b c d before_e e before_f f last : Bytes)
    → rune_count name ≡ n
    → IsCell 15 a × IsCell 15 b × IsCell 15 c × IsCell 15 d × IsCell we e × IsCell wf f
    → NoBar before_e × (rune_count before_e + we ≡ 14)
    → NoBar before_f × (rune_count before_f + wf ≡ 12)
    → IsAligned n (
        name
        ++ (codes ": "
            ++ (a
                ++ (bar
                    ++ (b
                        ++ (bar
                            ++ (c
                                ++ (bar
                                    ++ (d
                                        ++ ((b' ' ∷ b'|' ∷ before_e)
                                            ++ (e
                                                ++ ((b' ' ∷ b'|' ∷ before_f)
                                                    ++ (f ++ (bar ++ last))))))))))))))
unfolding IsAligned rune_count
line-IsAligned n we wf name a b c d be e bf f last w (ca, cb, cc', cd, ce, cf) (pe, le) (pf, lf) =
    let r = name-Starts n name _ w (
      column-Starts (n + 2) (n + 18) (n + 20) a (b' ' ∷ []) _ ca (refl, tt) (omega arith)
        (omega arith) (omega arith)
        (column-Starts (n + 20) (n + 36) (n + 38) b (b' ' ∷ []) _ cb (refl, tt) (omega arith)
          (omega arith) (omega arith)
          (column-Starts (n + 38) (n + 54) (n + 56) c (b' ' ∷ []) _ cc' (refl, tt) (omega arith)
            (omega arith) (omega arith)
            (column-Starts (n + 56) (n + 72) (n + 73 + rune_count be) d be _ cd pe (omega arith)
              (omega arith) (omega arith)
              (column-Starts (n + 73 + rune_count be) (n + 88) (n + 89 + rune_count bf) e bf _ ce pf
                (omega arith) (omega arith) (omega arith)
                (column-Starts (n + 89 + rune_count bf) (n + 102) (n + 104) f (b' ' ∷ []) last
                  {js = []} cf (refl, tt) (omega arith) (omega arith) (omega arith)
                  (record { others = _; found = refl }))))))) in
    rw r.found refl

pub header-IsAligned : (n : ℕ) → 4 ≤ n → IsAligned n (header n)
unfolding header rune_count
header-IsAligned n h =
    line-IsAligned n 13 11 (pad_right n (codes "span")) _ _ _ _ (b' ' ∷ []) _ (b' ' ∷ []) _ _
      (rune_count-pad_right n (codes "span") h)
      (
        pad_left-IsCell 15 (codes "min (ns)") (omega arith, search),
        pad_left-IsCell 15 (codes "last (ns)") (omega arith, search),
        pad_left-IsCell 15 (codes "max (ns)") (omega arith, search),
        pad_left-IsCell 15 (codes "mean (ns)") (omega arith, search),
        pad_left-IsCell 13 (codes "weight (B&As)") (omega arith, search),
        pad_left-IsCell 11 (codes "time frac") (omega arith, search),
      )
      ((refl, tt), refl) ((refl, tt), refl)

unknown_time : IsCell 15 (codes "???,???,???,???")
unfolding rune_count
unknown_time = record { width = refl; plain = search }

pad_left-pad_left : (s : Bytes) → IsIn 15 s → IsCell 15 (pad_left 15 (pad_left 15 s))
pad_left-pad_left s h =
    let c = pad_left-IsCell 15 s h in
    pad_left-IsCell 15 (pad_left 15 s) (omega (arith, c.width), c.plain)

-- The figures of a completed row fit their columns.
pub record Fits (frac : ℤ → ℤ → Bytes) (subtract : Bool) (ll : LatencyLearner)
    (since_init overhead : ℤ) : Type 0 where
  pub least : IsIn 15 (number_grouped (row_min subtract ll overhead) comma)
  pub latest : IsIn 15 (number_grouped (row_last subtract ll overhead) comma)
  pub greatest : IsIn 15 (number_grouped (row_max subtract ll overhead) comma)
  pub mean : IsIn 15 (number_grouped (row_mean subtract ll overhead) comma)
  pub weight : IsIn 11 (number_grouped ll.weight comma)
  pub fraction : IsIn 8 (frac ll.cumul since_init)

module _ (frac : ℤ → ℤ → Bytes) (subtract : Bool) (ll : LatencyLearner) (n : ℕ)
    (named : rune_count ll.name ≤ n) where
  pub row_blank-IsAligned : IsAligned n (row_blank frac subtract ll n)
  unfolding row_blank rune_count
  row_blank-IsAligned =
      line-IsAligned n 11 8 (pad_right n ll.name) _ _ _ _ (codes " w ") (codes "???,???,???")
        (codes " tf ") (codes "????????") (pad_right 21 ll.name)
        (rune_count-pad_right n ll.name named)
        (
          unknown_time,
          unknown_time,
          unknown_time,
          unknown_time,
          record { width = refl; plain = search },
          record { width = refl; plain = search },
        )
        (search, refl) (search, refl)

  pub row_completed-IsAligned :
      (since_init overhead : ℤ)
      → ltb_ℤ (pos 0) ll.weight ≡ true
      → Fits frac subtract ll since_init overhead
      → IsAligned n (row_completed frac subtract ll n since_init overhead)
  unfolding row_completed
  row_completed-IsAligned since_init overhead weighed f = rw weighed (
      line-IsAligned n 11 8 (pad_right n ll.name) _ _ _ _ (codes " w ") _ (codes " tf ") _
        (pad_right 21 ll.name) (rune_count-pad_right n ll.name named)
        (
          pad_left-pad_left _ f.least,
          pad_left-pad_left _ f.latest,
          pad_left-pad_left _ f.greatest,
          pad_left-IsCell 15 _ f.mean,
          pad_left-IsCell 11 _ f.weight,
          pad_left-IsCell 8 _ f.fraction,
        )
        (search, (unfold rune_count in refl)) (search, (unfold rune_count in refl)))
