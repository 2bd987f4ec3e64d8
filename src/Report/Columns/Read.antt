-- ===== src/Report/Columns/Read.antt =====
-- The numbers that a reader finds in the columns of a row.
use latlearn.Common.{
  All-append, append_assoc, length, ℕ, zero, suc, ◌+◌, ◌-◌, ◌*◌, ◌≡◌, refl, ap, ◌∙◌, pos, Bytes,
  Bool, true, false, not, ◌&&◌, List, [], ◌∷◌, ◌++◌, codes, arith, eqb, leb, if◌then◌else◌, All,
  Bool-cases, inl, inr,
}
use latlearn.Report.Text.{spaces, rune_count, pad_left}
use latlearn.Report.Number.{number_grouped}
use latlearn.Report.Number.Thousands.{read_number, read_number-number_grouped}
use latlearn.Report.Row.{comma, bar}
use latlearn.Report.Columns.{continues, NoBar, spaces-NoBar, first, first-append}
use latlearn.Report.Columns.Numbers.{number-All, number-NoBar}

-- The text behind the first `n` characters.
unfoldable pub skip : ℕ → Bytes → Bytes
skip n [] = []
skip n (c ∷ s) = elim (continues c) [
  | true ↦ skip n s
  | false ↦ elim n [ zero ↦ c ∷ s | suc m ↦ skip m s ]
]

abbrev pub is_digit : ℕ → Bool
is_digit c = leb b'0' c && leb c b'9'

abbrev pub read_digit : ℕ → ℕ → ℕ
read_digit acc c = if is_digit c then acc * 10 + (c - b'0') else acc

-- The number that the digits of a text make, behind those of `acc`.
unfoldable pub reads : ℕ → Bytes → ℕ
reads acc [] = acc
reads acc (c ∷ s) = reads (read_digit acc c) s

-- The number before each bar.
unfoldable pub figures : ℕ → Bytes → List ℕ
figures acc [] = []
figures acc (c ∷ s) =
    let rest = figures (if eqb c b'|' then 0 else read_digit acc c) s in
    if eqb c b'|' then acc ∷ rest else rest

skip-all : (s t : Bytes) → skip (rune_count s) (s ++ (codes ": " ++ t)) ≡ codes ": " ++ t
unfolding skip rune_count
skip-all [] t = refl
skip-all (c ∷ s) t = elim (Bool-cases (continues c)) [
  | inl on ↦ ground (arith, skip-all s t)
  | inr new ↦ ground (arith, skip-all s t)
]

figures-NoBar : (acc : ℕ) (s t : Bytes) → NoBar s → figures acc (s ++ t) ≡ figures (reads acc s) t
unfolding figures reads
figures-NoBar acc [] t h = refl
figures-NoBar acc (c ∷ s) t h = rw (h.0) (figures-NoBar (read_digit acc c) s t h.1)

figures-append :
    (acc : ℕ) (s t : Bytes) → (others : List ℕ) × (figures acc (s ++ t) ≡ figures acc s ++ others)
unfolding figures
figures-append acc [] t = (figures acc t, refl)
figures-append acc (c ∷ s) t = elim (Bool-cases (eqb c b'|')) [
  | inl at ↦ let (others, e) = figures-append 0 s t in (others, rw at (ap (λ r. acc ∷ r) e))
  | inr off ↦ let (others, e) = figures-append (read_digit acc c) s t in (others, rw off e)
]

reads-append : (acc : ℕ) (s t : Bytes) → reads acc (s ++ t) ≡ reads (reads acc s) t
unfolding reads
reads-append acc [] t = refl
reads-append acc (c ∷ s) t = reads-append (read_digit acc c) s t

reads-spaces : (acc n : ℕ) → reads acc (spaces n) ≡ acc
unfolding reads spaces
reads-spaces acc zero = refl
reads-spaces acc (suc n) = reads-spaces acc n

reads-pad_left : (acc n : ℕ) (s : Bytes) → reads acc (pad_left n s) ≡ reads acc s
unfolding pad_left
reads-pad_left acc n s =
    reads-append acc (spaces (n - rune_count s)) s
    ∙ ap (λ a. reads a s) (reads-spaces acc (n - rune_count s))

reads-read_number :
    (acc : ℕ) (s : Bytes)
    → All (λ c. is_digit c ≡ not (eqb c b',')) s
    → reads acc s ≡ read_number b',' acc s
unfolding reads read_number
reads-read_number acc [] h = refl
reads-read_number acc (c ∷ s) h = elim (Bool-cases (eqb c b',')) [
  | inl at ↦
      let none : is_digit c ≡ false = ground (arith, h.0) in
      rw (at, none) (reads-read_number acc s h.1)
  | inr off ↦
      let one : is_digit c ≡ true = ground (arith, h.0) in
      rw (off, one) (reads-read_number (acc * 10 + (c - b'0')) s h.1)
]

reads-number : (n : ℕ) → reads 0 (number_grouped (pos n) comma) ≡ n
reads-number n =
    reads-read_number 0 (number_grouped (pos n) comma)
      (number-All (λ c. is_digit c ≡ not (eqb c b',')) refl (λ d h. ground arith) n)
    ∙ read_number-number_grouped n b',' (omega arith)

-- A text from which the number `v` is read.
pub record IsNumber (v : ℕ) (s : Bytes) : Type 0 where
  pub plain : NoBar s
  pub read : reads 0 s ≡ v

pub number_grouped-IsNumber : (n : ℕ) → IsNumber n (number_grouped (pos n) comma)
number_grouped-IsNumber n = record { plain = number-NoBar n; read = reads-number n }

pub pad_left-IsNumber : (v n : ℕ) (s : Bytes) → IsNumber v s → IsNumber v (pad_left n s)
pad_left-IsNumber v n s h = record {
  plain =
      unfold pad_left in
      All-append (λ c. eqb c b'|' ≡ false) (spaces (n - rune_count s)) s (spaces-NoBar _) h.plain;
  read = reads-pad_left 0 n s ∙ h.read;
}

column-figures :
    (v : ℕ) (s m t : Bytes)
    → IsNumber v s
    → NoBar m
    → figures 0 (s ++ (b' ' ∷ b'|' ∷ (m ++ t))) ≡ v ∷ figures (reads 0 m) t
column-figures v s m t h plain =
    figures-NoBar 0 s (b' ' ∷ b'|' ∷ (m ++ t)) h.plain
    ∙ rw (h.read) (unfold figures in ap (λ r. v ∷ r) (figures-NoBar 0 m t plain))

-- The first five numbers of a line, behind a name of `n` characters.
abbrev pub row_figures : ℕ → Bytes → List ℕ
row_figures n line = first 5 (figures 0 (skip n line))

pub line-figures :
    (va vb vc vd vw : ℕ) (a b c d w rest : Bytes)
    → IsNumber va a × IsNumber vb b × IsNumber vc c × IsNumber vd d × IsNumber vw w
    → first 5 (
        figures 0 (
          a
          ++ (bar
              ++ (b
                  ++ (bar
                      ++ (c
                          ++ (bar
                              ++ (d ++ (codes " | w " ++ (w ++ (codes " | tf " ++ rest)))))))))))
      ≡ va ∷ vb ∷ vc ∷ vd ∷ vw ∷ []
unfolding reads
line-figures va vb vc vd vw a b c d w rest (ha, hb, hc, hd, hw) =
    rw
      (
        column-figures va a (b' ' ∷ []) _ ha (refl, tt),
        column-figures vb b (b' ' ∷ []) _ hb (refl, tt),
        column-figures vc c (b' ' ∷ []) _ hc (refl, tt),
        column-figures vd d (codes " w ") _ hd search,
        column-figures vw w (codes " tf ") rest hw search,
      )
      refl

-- The name and the end of a line do not matter.
pub named-figures :
    (name t end : Bytes) (vs : List ℕ)
    → first 5 (figures 0 t) ≡ vs
    → length vs ≡ 5
    → row_figures (rune_count name) ((name ++ (codes ": " ++ t)) ++ end) ≡ vs
named-figures name t end vs e five =
    let (others, f) = figures-append 0 t end in
    rw (append_assoc name (codes ": " ++ t) end, skip-all name (t ++ end))
      (unfold figures in ap (first 5) f ∙ first-append 5 (figures 0 t) others (rw e five) ∙ e)
