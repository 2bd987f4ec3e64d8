-- ===== src/Report/Columns.antt =====
-- The columns of the report: where the bars stand in one of its lines.
pub mod Rows
pub mod Read
pub mod Shown
pub mod Whole
pub mod Fits
pub mod Numbers
use latlearn.Common.{
  ℕ, zero, suc, ◌+◌, ◌-◌, ◌≤◌, ◌≡◌, refl, ap, ◌∙◌, Bytes, Bool, true, false, ◌&&◌, List, [], ◌∷◌,
  ◌++◌, codes, arith, eqb, ltb, leb, if◌then◌else◌, length, Bool-cases, inl, inr, All, All-append,
}
use latlearn.Report.Text.{spaces, rune_count, pad_left, pad_right}

-- A byte that continues a character.
abbrev pub continues : ℕ → Bool
continues c = leb 128 c && ltb c 192

-- The columns, counted in characters, of the bars `|` in a line that stand at `start` or later; the line
-- begins at the column `i`.
unfoldable pub bars : ℕ → ℕ → Bytes → List ℕ
bars start i [] = []
bars start i (c ∷ s) =
    let rest = bars start (if continues c then i else suc i) s in
    if eqb c b'|' && leb start i then i ∷ rest else rest

abbrev pub first : ℕ → List ℕ → List ℕ
first zero xs = []
first (suc n) [] = []
first (suc n) (x ∷ xs) = x ∷ first n xs

-- The six bars of a line after its name, in a field of `name_field` characters, stand where the columns of
-- figures end.
unfoldable pub IsAligned : ℕ → Bytes → Type 0
IsAligned name_field line =
    first 6 (bars name_field 0 line)
    ≡ (name_field + 18)
      ∷ (name_field + 36)
      ∷ (name_field + 54)
      ∷ (name_field + 72)
      ∷ (name_field + 88)
      ∷ (name_field + 102)
      ∷ []

rune_count-append : (s t : Bytes) → rune_count (s ++ t) ≡ rune_count s + rune_count t
unfolding rune_count
rune_count-append [] t = omega arith
rune_count-append (c ∷ s) t = ground (arith, rune_count-append s t)

rune_count-spaces : (n : ℕ) → rune_count (spaces n) ≡ n
unfolding rune_count spaces
rune_count-spaces zero = refl
rune_count-spaces (suc n) = ground (arith, rune_count-spaces n)

-- Before the column `start` the bars do not count.
bars-early :
    (start i : ℕ) (s t : Bytes)
    → i + rune_count s ≡ start
    → bars start i (s ++ t) ≡ bars start start t
unfolding bars rune_count
bars-early start i [] t e = ground arith
bars-early start i (c ∷ s) t e = elim (Bool-cases (continues c)) [
  | inl on ↦ ground (arith, bars-early start i s t)
  | inr new ↦ ground (arith, bars-early start (suc i) s t)
]

bars-append :
    (start i : ℕ) (s t : Bytes)
    → bars start i (s ++ t) ≡ bars start i s ++ bars start (i + rune_count s) t
unfolding bars rune_count
bars-append start i [] t = ground arith
bars-append start i (c ∷ s) t = elim (Bool-cases (continues c)) [
  | inl on ↦ ground (arith, bars-append start i s t)
  | inr new ↦ ground (arith, bars-append start (suc i) s t)
]

pub first-append :
    (n : ℕ) (xs ys : List ℕ) → length (first n xs) ≡ n → first n (xs ++ ys) ≡ first n xs
first-append zero xs ys h = refl
first-append (suc n) [] ys h = absurd (omega arith)
first-append (suc n) (x ∷ xs) ys h = ap (λ zs. x ∷ zs) (first-append n xs ys (omega arith))

-- What follows an aligned line, its newline, does not matter.
pub append-IsAligned : (n : ℕ) (s t : Bytes) → IsAligned n s → IsAligned n (s ++ t)
unfolding IsAligned
append-IsAligned n s t h =
    rw (bars-append n 0 s t)
      (first-append 6 (bars n 0 s) (bars n (0 + rune_count s) t) (rw h refl) ∙ h)

-- A text with no bar in it.
abbrev pub NoBar : Bytes → Type 0
NoBar s = All (λ c. eqb c b'|' ≡ false) s

-- A text that a column of `n` characters holds.
abbrev pub IsIn : ℕ → Bytes → Type 0
IsIn n s = (rune_count s ≤ n) × NoBar s

-- A column of `n` characters.
record IsCell (n : ℕ) (s : Bytes) : Type 0 where
  width : rune_count s ≡ n
  plain : NoBar s

bars-NoBar :
    (start i : ℕ) (s t : Bytes) → NoBar s → bars start i (s ++ t) ≡ bars start (i + rune_count s) t
unfolding bars rune_count
bars-NoBar start i [] t h = ground arith
bars-NoBar start i (c ∷ s) t h = elim (Bool-cases (continues c)) [
  | inl on ↦ ground (arith, bars-NoBar start i s t h.1, h.0)
  | inr new ↦ ground (arith, bars-NoBar start (suc i) s t h.1, h.0)
]

bars-IsCell :
    (start i n : ℕ) (s t : Bytes) → IsCell n s → bars start i (s ++ t) ≡ bars start (i + n) t
bars-IsCell start i n s t c = rw (← c.width) (bars-NoBar start i s t c.plain)

pub spaces-NoBar : (n : ℕ) → NoBar (spaces n)
unfolding spaces
spaces-NoBar zero = tt
spaces-NoBar (suc n) = (refl, spaces-NoBar n)

pad_left-IsCell : (n : ℕ) (s : Bytes) → IsIn n s → IsCell n (pad_left n s)
unfolding pad_left
pad_left-IsCell n s (short, plain) = record {
  width = omega (
    arith,
    rune_count-append (spaces (n - rune_count s)) s,
    rune_count-spaces (n - rune_count s),
  );
  plain = All-append (λ c. eqb c b'|' ≡ false) (spaces (n - rune_count s)) s (spaces-NoBar _) plain;
}

rune_count-pad_right : (n : ℕ) (s : Bytes) → rune_count s ≤ n → rune_count (pad_right n s) ≡ n
unfolding pad_right
rune_count-pad_right n s short =
    omega
      (arith, rune_count-append s (spaces (n - rune_count s)), rune_count-spaces (n - rune_count s))

-- The first bars of the text `s`, which begins at the column `i`, are those in `js`.
pub record Starts (start i : ℕ) (s : Bytes) (js : List ℕ) : Type 0 where
  pub others : List ℕ
  pub found : bars start i s ≡ js ++ others

-- A column, and behind it a bar with the text `m`.
column-Starts :
    {start n : ℕ} (i j k : ℕ) (s m t : Bytes) {js : List ℕ}
    → IsCell n s
    → NoBar m
    → start ≤ i
    → i + n + 1 ≡ j
    → j + 1 + rune_count m ≡ k
    → Starts start k t js
    → Starts start i (s ++ (b' ' ∷ b'|' ∷ (m ++ t))) (j ∷ js)
unfolding bars
column-Starts {start} {n} i j k s m t c plain late at after r =
    let here : suc (i + n) ≡ j = omega arith in
    let there : suc j + rune_count m ≡ k = omega arith in
    let shown : leb start j ≡ true = ground arith in
    record {
      others = r.others;
      found =
          rw
            (
              bars-IsCell start i n s (b' ' ∷ b'|' ∷ (m ++ t)) c,
              here,
              shown,
              bars-NoBar start (suc j) m t plain,
              there,
              r.found,
            )
            refl;
    }

name-Starts :
    (n : ℕ) (name t : Bytes) {js : List ℕ}
    → rune_count name ≡ n
    → Starts n (n + 2) t js
    → Starts n 0 (name ++ (codes ": " ++ t)) js
name-Starts n name t w r =
    let begins : 0 + rune_count name ≡ n = omega (arith, w) in
    let end : n + 2 ≡ suc (suc n) = omega arith in
    record {
      others = r.others;
      found = bars-early n 0 name (codes ": " ++ t) begins ∙ (unfold bars in rw (← end) r.found);
    }
