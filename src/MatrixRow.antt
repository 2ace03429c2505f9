-- ===== src/MatrixRow.antt =====
-- The rows of the sparse matrix: 06_matrix/row.hpp (`TRow<int, V>`). The cells are an ordered list;
-- the default value `V` is an argument of the functions.
pub mod Cells
pub mod Last
pub mod Dump
pub mod Print
use cpp.Prelude.{ℕ, ◌+◌, Bool, Option, none, some, List, [], ◌∷◌, ltb, ◌==◌, if◌then◌else◌}
use cpp.Prelude.Int.{ℤ, negsuc, eq_ℤ, int_of_size}
use cpp.Prelude.OrdMap.{OrdMap}

-- `std::lower_bound` on the cells: those from the first whose index is not below `ix`.
unfoldable pub lower_bound : ℕ → OrdMap ℤ → OrdMap ℤ
lower_bound ix [] = []
lower_bound ix ((j, w) ∷ items) =
    let rest = lower_bound ix items in if ltb j ix then rest else (j, w) ∷ items

-- `operator[]` of a constant row
unfoldable pub get : ℤ → ℕ → OrdMap ℤ → ℤ
unfolding lower_bound
get v ix items = elim (lower_bound ix items) [ [] ↦ v | c ∷ rest ↦ if c.0 == ix then c.1 else v ]

-- `operator[]`: a cell with the default value is inserted where there is none.
unfoldable pub insert_cell : ℤ → ℕ → OrdMap ℤ → OrdMap ℤ
insert_cell v ix [] = (ix, v) ∷ []
insert_cell v ix ((j, w) ∷ items) =
    let rest = insert_cell v ix items in
    if ltb j ix then (j, w) ∷ rest else if j == ix then (j, w) ∷ items else (ix, v) ∷ (j, w) ∷ items

-- A write through the reference to the cell `ix`.
unfoldable pub write_cell : ℕ → ℤ → OrdMap ℤ → OrdMap ℤ
write_cell ix x [] = []
write_cell ix x ((j, w) ∷ items) =
    let rest = write_cell ix x items in if j == ix then (j, x) ∷ items else (j, w) ∷ rest

-- `row[ix] = x`
unfoldable pub set_cell : ℤ → ℕ → ℤ → OrdMap ℤ → OrdMap ℤ
unfolding insert_cell write_cell
set_cell v ix x items = write_cell ix x (insert_cell v ix items)

-- `Size`
unfoldable pub size : ℤ → OrdMap ℤ → ℕ
size v [] = 0
size v ((j, w) ∷ items) = (if eq_ℤ w v then 0 else 1) + size v items

-- The loop of `LastIndex`, from the last cell to the first.
unfoldable pub last_cell : ℤ → OrdMap ℤ → Option ℕ
last_cell v [] = none
last_cell v ((j, w) ∷ items) = elim (last_cell v items) [
  | some k ↦ some k
  | none ↦ if eq_ℤ w v then none else some j
]

-- `LastIndex`
unfoldable pub last_index : ℤ → OrdMap ℤ → ℤ
unfolding last_cell
last_index v items = elim (last_cell v items) [ none ↦ negsuc 0 | some k ↦ int_of_size k ]
