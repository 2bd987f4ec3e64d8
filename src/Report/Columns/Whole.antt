-- ===== src/Report/Columns/Whole.antt =====
-- The columns of a whole report: its header and the row of a span.
use latlearn.Common.{
  ℕ, ◌^◌, ◌≤◌, ◌<◌, ◌≡◌, refl, Bytes, Bool, true, false, some, List, [], ◌∷◌, arith, ℤ, pos, negsuc,
  All, length, inl, inr, Bool-cases, mem, ◌==◌, ==_sound, codes, if◌then◌else◌,
}
use latlearn.Common.Int.{◌≤ℤ◌, Int64, eqb_ℤ, ltb_ℤ}
use latlearn.Learner.{LatencyLearner}
use latlearn.Learner.Samples.{Summarises, sum}
use latlearn.Registry.{overhead_span, time_sub}
use latlearn.Registry.Store.{IsValid, stats}
use latlearn.State.{Latlearn}
use latlearn.Report.Host.{Host}
use latlearn.Report.Text.{rune_count}
use latlearn.Report.Row.{row}
use latlearn.Report.Whole.{is_skipped, report_text, header, longest_loop}
use latlearn.Report.Whole.Total.{name_width, report_overhead}
use latlearn.Report.Whole.Shown.{Shows, table-Shows, row_of, report_text-Shows}
use latlearn.Report.Overhead.{IsOverhead}
use latlearn.Report.Columns.{IsAligned, IsIn, append-IsAligned}
use latlearn.Report.Columns.Numbers.{rune_count-le}
use latlearn.Report.Columns.Rows.{header-IsAligned, row_blank-IsAligned, row_completed-IsAligned}
use latlearn.Report.Columns.Fits.{IsShort, Summarises-Fits}

-- The row of a learner of few and short samples, whether it has any or not.
row-IsAligned :
    (frac : ℤ → ℤ → Bytes) (subtract : Bool) (ll : LatencyLearner) (name : Bytes) (ds : List ℤ)
    (n : ℕ) (since_init o : ℤ)
    → Summarises ll name ds
    → rune_count name ≤ n
    → All IsShort ds
    → length ds < 10 ^ 9
    → Int64 (sum ds)
    → IsOverhead o
    → IsIn 8 (frac ll.cumul since_init)
    → IsAligned n (row frac subtract ll n since_init o)
unfolding row
row-IsAligned frac subtract ll name [] n si o s w short few small known narrow =
    simp s.completed
      (append-IsAligned n _ (codes "\n") (row_blank-IsAligned frac subtract ll n (rw s.named w)))
row-IsAligned frac subtract ll name (d ∷ ds) n si o s w short few small known narrow =
    let (fits, weighed) =
      Summarises-Fits frac subtract ll name d ds si o s short few small known narrow in
    simp s.completed (
      append-IsAligned n _ (codes "\n")
        (row_completed-IsAligned frac subtract ll n (rw s.named w) si o weighed fits))

-- The name field holds the longest of the names.
longest_loop-ge : (m : ℤ) (names : List Bytes) → negsuc 0 ≤ℤ m → m ≤ℤ longest_loop m names
unfolding longest_loop
longest_loop-ge m [] h = omega arith
longest_loop-ge m (name ∷ names) h =
    let n = pos (length name) in
    let next = if eqb_ℤ m (negsuc 0) then n else if ltb_ℤ m n then n else m in
    let up : m ≤ℤ next = ground arith in omega (arith, longest_loop-ge next names (omega arith))

longest_loop-longest :
    (m : ℤ) (names : List Bytes) (name : Bytes)
    → negsuc 0 ≤ℤ m
    → mem name names ≡ true
    → pos (length name) ≤ℤ longest_loop m names
unfolding longest_loop mem
longest_loop-longest m [] name h at = absurd (ground arith)
longest_loop-longest m (first ∷ names) name h at =
    let n = pos (length first) in
    let next = if eqb_ℤ m (negsuc 0) then n else if ltb_ℤ m n then n else m in
    let up : (negsuc 0 ≤ℤ next) × (n ≤ℤ next) = ground arith in
    elim (Bool-cases (first == name)) [
      | inl same ↦
          rw (← ==_sound first name same) (omega (arith, up.1, longest_loop-ge next names up.0))
      | inr other ↦ longest_loop-longest next names name up.0 (ground arith)
    ]

pub name-fits :
    (l : Latlearn) (name : Bytes)
    → mem name l.registry.tracked_spans ≡ true
    → rune_count name ≤ name_width l
name-fits l name at = omega (
  arith,
  rune_count-le name,
  longest_loop-longest (negsuc 0) l.registry.tracked_spans name (omega arith) at,
)

-- In the text of a report on a valid registry that tracks LL.no-op, the header and the row of each
-- tracked span that is not skipped have their six bars in the same columns, where the span has fewer than
-- 10^9 samples, each of 0 ns to 10^12 - 2 ns, whose sum is an int64, the estimate of the overhead is an
-- int64 of -1 or more, and the time fraction is printed in eight characters.
pub report_text-IsAligned :
    (h : Host) (l : Latlearn) (params : List Bytes) (t2 : ℤ) (text span : Bytes) (ds : List ℤ)
    → IsValid l.registry
    → report_text h l params t2 ≡ some text
    → mem overhead_span l.registry.tracked_spans ≡ true
    → mem span l.registry.tracked_spans ≡ true
    → is_skipped l span ≡ false
    → Summarises (stats l.registry span) span ds
    → All IsShort ds
    → length ds < 10 ^ 9
    → Int64 (sum ds)
    → IsOverhead (report_overhead l)
    → IsIn 8 (h.frac (stats l.registry span).cumul (time_sub t2 l.init_time))
    → (Shows text (header (name_width l)) × IsAligned (name_width l) (header (name_width l)))
      × (Shows text (row_of h l t2 span) × IsAligned (name_width l) (row_of h l t2 span))
report_text-IsAligned h l params t2 text span ds v e builtin at shown s short few small known
      narrow =
    let four : 4 ≤ rune_count overhead_span = unfold rune_count in omega arith in
    (
      (
        table-Shows h l params t2 text (header (name_width l)) v e ([], _, refl),
        header-IsAligned (name_width l) (omega (arith, name-fits l overhead_span builtin)),
      ),
      (
        report_text-Shows h l params t2 text span v e at shown,
        row-IsAligned h.frac l.should_subtract_overhead (stats l.registry span) span ds
            (name_width l) (time_sub t2 l.init_time) (report_overhead l) s (name-fits l span at)
            short few small known narrow,
      ),
    )
