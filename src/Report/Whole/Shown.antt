-- ===== src/Report/Whole/Shown.antt =====
-- The row of a span in the text of a report.
use latlearn.Common.{
  ◌≡◌, refl, sym, ap, ◌∙◌, inl, inr, ℤ, Bytes, true, false, some, List, [], ◌∷◌, ◌++◌, ◌==◌,
  ==_sound, append_assoc, arith, mem, Bool-cases, ℕ,
}
use latlearn.Registry.{time_sub}
use latlearn.Registry.Store.{IsValid, stats}
use latlearn.State.{Latlearn}
use latlearn.Report.Host.{Host, host_lines}
use latlearn.Report.Row.{row}
use latlearn.Report.Whole.{is_skipped, report_text, settings_lines, params_text, header}
use latlearn.Report.Whole.Total.{visible_rows, report_text_rows, name_width, report_overhead}

-- The row of `span` in a report of `l` at the time `t2`.
abbrev pub row_of : Host → Latlearn → ℤ → Bytes → Bytes
row_of h l t2 span =
    row h.frac l.should_subtract_overhead (stats l.registry span) (name_width l)
      (time_sub t2 l.init_time) (report_overhead l)

abbrev pub Shows : Bytes → Bytes → Type 0
Shows text part = (before : Bytes) × (after : Bytes) × (text ≡ before ++ (part ++ after))

Shows-append : (xs text part : Bytes) → Shows text part → Shows (xs ++ text) part
Shows-append xs text part (before, after, e) =
    (xs ++ before, after, ap (λ t. xs ++ t) e ∙ sym (append_assoc xs before (part ++ after)))

visible_rows-Shows :
    (h : Host) (l : Latlearn) (n : ℕ) (since_init overhead : ℤ) (spans : List Bytes) (span : Bytes)
    → mem span spans ≡ true
    → is_skipped l span ≡ false
    → Shows
        (visible_rows h l n since_init overhead spans)
        (row h.frac l.should_subtract_overhead (stats l.registry span) n since_init overhead)
unfolding visible_rows mem
visible_rows-Shows h l n si o [] span at shown = absurd (ground arith)
visible_rows-Shows h l n si o (s ∷ spans) span at shown = elim (Bool-cases (s == span)) [
  | inl same ↦
      let e : s ≡ span = ==_sound s span same in
      rw e (rw shown ([], visible_rows h l n si o spans, refl))
  | inr other ↦
      let rest = visible_rows-Shows h l n si o spans span (ground arith) shown in
      elim (Bool-cases (is_skipped l s)) [
        | inl skipped ↦ rw skipped rest
        | inr seen ↦ rw seen (
            Shows-append (row h.frac l.should_subtract_overhead (stats l.registry s) n si o)
              (visible_rows h l n si o spans) _ rest)
      ]
]

-- The header of a report and its rows.
abbrev pub table : Host → Latlearn → ℤ → Bytes
table h l t2 =
    header (name_width l)
    ++ visible_rows h l (name_width l) (time_sub t2 l.init_time) (report_overhead l)
        l.registry.tracked_spans

-- The text of a report shows what its table does.
pub table-Shows :
    (h : Host) (l : Latlearn) (params : List Bytes) (t2 : ℤ) (text part : Bytes)
    → IsValid l.registry
    → report_text h l params t2 ≡ some text
    → Shows (table h l t2) part
    → Shows text part
table-Shows h l params t2 text part v e shown =
    let all = report_text_rows h l params t2 v in
    let whole =
      Shows-append (settings_lines l (time_sub t2 l.init_time)) _ part
        (Shows-append (host_lines h) _ part (Shows-append (params_text params) _ part shown)) in
    let (before, after, q) = whole in (before, after, ground (arith, all, e) ∙ q)

-- The text of a report has the row of each tracked span that is not skipped.
pub report_text-Shows :
    (h : Host) (l : Latlearn) (params : List Bytes) (t2 : ℤ) (text span : Bytes)
    → IsValid l.registry
    → report_text h l params t2 ≡ some text
    → mem span l.registry.tracked_spans ≡ true
    → is_skipped l span ≡ false
    → Shows text (row_of h l t2 span)
report_text-Shows h l params t2 text span v e at shown =
    let part = row_of h l t2 span in
    table-Shows h l params t2 text part v e (
      Shows-append (header (name_width l)) _ part (
        visible_rows-Shows h l (name_width l) (time_sub t2 l.init_time) (report_overhead l)
          l.registry.tracked_spans span at shown))
