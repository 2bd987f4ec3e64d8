-- ===== src/Report/Text.antt =====
-- What the report uses of Go's fmt and strings, on byte strings: `%d`, `%v`, `%Ns`, `%-Ns`, and
-- `strings.Split( s, "")` and `strings.Join( a, "")` on ASCII texts.
use latlearn.Common.{
  ℕ, zero, suc, ◌+◌, ◌-◌, ◌/◌, ◌%◌, ◌<◌, ◌≡◌, ℤ, pos, negsuc, Bytes, Bool, true, false, ◌&&◌, List,
  [], ◌∷◌, ◌++◌, codes, arith, ltb, leb, if◌then◌else◌,
}
use mathlib.Core.List.{reverse}

-- The decimal digits of a number, the last one first; `suc n` rounds are enough for `n`.
unfoldable pub rev_digits : ℕ → ℕ → Bytes
rev_digits zero n = []
rev_digits (suc fuel) n =
    let rest = rev_digits fuel (n / 10) in
    if ltb n 10 then (b'0' + n) ∷ [] else (b'0' + n % 10) ∷ rest

abbrev pub digits : ℕ → Bytes
digits n = reverse (rev_digits (suc n) n)

-- `%d`.
unfoldable pub sprint_d : ℤ → Bytes
unfolding rev_digits
sprint_d (pos n) = digits n
sprint_d (negsuc n) = b'-' ∷ digits (suc n)

-- `%v` of a bool.
unfoldable pub sprint_bool : Bool → Bytes
sprint_bool true = codes "true"
sprint_bool false = codes "false"

unfoldable pub spaces : ℕ → Bytes
spaces zero = []
spaces (suc n) = b' ' ∷ spaces n

-- fmt counts the characters of a text: the bytes of its UTF-8 that do not continue a character.
unfoldable pub rune_count : Bytes → ℕ
rune_count [] = 0
rune_count (c ∷ s) = let n = rune_count s in if leb 128 c && ltb c 192 then n else suc n

-- `%Ns` and `%-Ns`.
unfoldable pub pad_left : ℕ → Bytes → Bytes
unfolding spaces rune_count
pad_left n s = spaces (n - rune_count s) ++ s

unfoldable pub pad_right : ℕ → Bytes → Bytes
unfolding spaces rune_count
pad_right n s = s ++ spaces (n - rune_count s)

-- `strings.Split( s, "")` and `strings.Join( a, "")`.
unfoldable pub split_chars : Bytes → List Bytes
split_chars [] = []
split_chars (c ∷ s) = (c ∷ []) ∷ split_chars s

unfoldable pub join_all : List Bytes → Bytes
join_all [] = []
join_all (s ∷ ss) = s ++ join_all ss

-- Enough fuel: more gives the same digits.
pub rev_digits_fuel : (f g n : ℕ) → n < f → n < g → rev_digits f n ≡ rev_digits g n
unfolding rev_digits
rev_digits_fuel zero g n h k = elim h [ ]
rev_digits_fuel (suc f) zero n h k = elim k [ ]
rev_digits_fuel (suc f) (suc g) n h k = ground (arith, rev_digits_fuel f g (n / 10))
