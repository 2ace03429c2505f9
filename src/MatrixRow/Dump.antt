-- ===== src/MatrixRow/Dump.antt =====
-- The printed form of a row: `Dump` of 06_matrix/row.hpp.
use cpp.Prelude.{
  ℕ, zero, suc, ◌+◌, ◌-◌, ◌%◌, ◌^◌, ◌≤◌, [], ◌∷◌, ◌++◌, ◌==◌, if◌then◌else◌, max, Str,
}
use cpp.Prelude.Int.{ℤ}
use cpp.Prelude.Decimal.{to_string}
use cpp.Prelude.OrdMap.{OrdMap}
use cpp.MatrixRow.{get, lower_bound}

-- `Delimiter`
abbrev pub delimiter : Str
delimiter = 32 ∷ 32 ∷ 32 ∷ 32 ∷ []

abbrev pub delimiter_unless : ℕ → ℕ → Str
delimiter_unless col_max i = if i == col_max then [] else delimiter

-- The inner loop: so many default values.
unfoldable pub defaults : ℤ → ℕ → Str
defaults v zero = []
defaults v (suc n) = to_string v ++ delimiter ++ defaults v n

-- The loop over the cells, from the column `i`.
unfoldable pub dump_cells : ℤ → ℕ → ℕ → OrdMap ℤ → Str
unfolding defaults
dump_cells v col_max i [] = []
dump_cells v col_max i ((j, w) ∷ items) =
    defaults v (j - i)
    ++ to_string w
    ++ delimiter_unless col_max (max i j)
    ++ dump_cells v col_max ((max i j + 1) % 2 ^ 64) items

-- `Items.back().index + 1`, or `i` for a row without cells.
unfoldable pub after_last : ℕ → OrdMap ℤ → ℕ
after_last i [] = i
after_last i ((j, w) ∷ items) = after_last ((j + 1) % 2 ^ 64) items

-- The last loop, for so many columns.
unfoldable pub dump_tail : ℤ → ℕ → ℕ → ℕ → Str
dump_tail v col_max zero i = []
dump_tail v col_max (suc n) i =
    to_string v ++ delimiter_unless col_max i ++ dump_tail v col_max n (i + 1)

-- `Dump`
unfoldable pub dump : ℤ → ℕ → ℕ → OrdMap ℤ → Str
unfolding lower_bound dump_cells after_last dump_tail
dump v col_min col_max items =
    dump_cells v col_max col_min (lower_bound col_min items)
    ++ dump_tail v col_max (col_max + 1 - after_last col_min items) (after_last col_min items)

-- The values of `n` columns from `i` on, with the delimiter between them.
unfoldable pub columns : ℤ → OrdMap ℤ → ℕ → ℕ → Str
columns v items i zero = []
columns v items i (suc n) =
    to_string (get v i items) ++ (if n == 0 then [] else delimiter) ++ columns v items (i + 1) n

-- Every cell is between the columns.
abbrev pub Between : ℕ → ℕ → OrdMap ℤ → Type 0
Between lo hi [] = Unit
Between lo hi ((j, w) ∷ items) = (lo ≤ j) × (j ≤ hi) × Between lo hi items
