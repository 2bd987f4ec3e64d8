-- ===== src/Report/Number.antt =====
-- `reverse_string_array` and `number_grouped`.
pub mod Groups
pub mod Thousands
pub mod Reversed
pub mod Sign
use latlearn.Common.{
  ℕ, zero, suc, ◌+◌, ◌%◌, ℤ, Bytes, not, ◌&&◌, none, some, List, [], ◌∷◌, ◌++◌, eqb, if◌then◌else◌,
  length, get_elem?,
}
use latlearn.Report.Text.{sprint_d, split_chars, join_all}

-- `for i := len( in) - 1; i >= 0; i--`: the first argument is `i + 1`.
unfoldable pub reverse_loop : ℕ → List Bytes → List Bytes → List Bytes
reverse_loop zero xs out = out
reverse_loop (suc i) xs out =
    reverse_loop i xs (elim (get_elem? xs i) [ none ↦ out | some x ↦ out ++ x ∷ [] ])

unfoldable pub reverse_string_array : List Bytes → List Bytes
unfolding reverse_loop
reverse_string_array xs = reverse_loop (length xs) xs []

-- `for i, pc := range s_pcs2`, from index `i` on.
unfoldable pub group_loop : Bytes → ℕ → List Bytes → Bytes → Bytes
group_loop sep i [] s2 = s2
group_loop sep i (pc ∷ pcs) s2 =
    group_loop sep (i + 1) pcs ((if not (eqb i 0) && eqb (i % 3) 0 then s2 ++ sep else s2) ++ pc)

unfoldable pub number_grouped : ℤ → Bytes → Bytes
number_grouped val sep =
    let s = sprint_d val in
    let s_pcs = split_chars s in
    let s_pcs2 = reverse_string_array s_pcs in
    let s2 = group_loop sep 0 s_pcs2 [] in
    let s_pcs3 = split_chars s2 in let s_pcs4 = reverse_string_array s_pcs3 in join_all s_pcs4
