-- ===== src/JoinServer/Table.antt =====
-- A table of versioned rows: 11_join_server/table.hpp and table.cpp (`TTable`).
-- Each operation is one atomic step; the two locked sections of `InsertRow` are two functions.
pub mod Reads
pub mod Order
use cpp.Prelude.{ℕ, Bool, Option, none, some, List, [], ◌∷◌}
use cpp.Prelude.Int.{ℤ, size_of_int}
use cpp.Prelude.OrdMap.{OrdMap, find, assign}
use cpp.Prelude.Result.{Result, ok, throw, ◌>>=◌}
use cpp.JoinServer.Value.{RowData, get_int}
use cpp.JoinServer.Row.{Row, new_row, get_version, add_version}

pub record Table : Type 0 where
  pub rows : OrdMap Row

-- `MakeTable`
abbrev pub make_table : Table
make_table = record { rows = [] }

-- The row at `row_id` gets one more version.
add_version_at : ℕ → ℕ → RowData → Row → Table → Result Table
add_version_at tx row_id row r t = do
  r' ← add_version tx (some row) r
  ok (record { rows = assign row_id r' t.rows })

-- The hot path, under the shared lock: `none` when there is no such row.
unfoldable pub insert_existing : ℕ → ℕ → RowData → Table → Option (Result Table)
unfolding add_version_at
insert_existing tx row_id row t = elim (find row_id t.rows) [
  | none ↦ none
  | some r ↦ some (add_version_at tx row_id row r t)
]

-- `Rows_[rowId]`: a new row where there is none.
abbrev row_or_new : Option Row → Row
row_or_new none = new_row
row_or_new (some r) = r

-- The second section, under the exclusive lock.
unfoldable pub insert_new : ℕ → ℕ → RowData → Table → Result Table
unfolding add_version_at
insert_new tx row_id row t = add_version_at tx row_id row (row_or_new (find row_id t.rows)) t

unfoldable pub insert_row : ℕ → RowData → Table → Result Table
unfolding insert_existing insert_new
insert_row tx row t = do
  key ← get_int row 0
  let row_id = size_of_int key
  elim (insert_existing tx row_id row t) [ none ↦ insert_new tx row_id row t | some r ↦ r ]

-- `it == Rows_.end()` gives `nullopt`.
unfoldable pub get_row : ℕ → ℕ → Table → Option RowData
get_row tx row_id t = elim (find row_id t.rows) [ none ↦ none | some r ↦ get_version tx r ]

-- The arguments of the calls of `handler`, in their order.
unfoldable pub iterate_rows : ℕ → OrdMap Row → List (ℕ × Option RowData)
iterate_rows tx [] = []
iterate_rows tx ((k, v) ∷ m) = (k, get_version tx v) ∷ iterate_rows tx m

unfoldable pub iterate : ℕ → Table → List (ℕ × Option RowData)
unfolding iterate_rows
iterate tx t = iterate_rows tx t.rows

unfoldable pub truncate_rows : ℕ → OrdMap Row → Result (OrdMap Row)
truncate_rows tx [] = ok []
truncate_rows tx ((k, v) ∷ m) = do
  v' ← add_version tx none v
  m' ← truncate_rows tx m
  ok ((k, v') ∷ m')

unfoldable pub truncate : ℕ → Table → Result Table
unfolding truncate_rows
truncate tx t = do m ← truncate_rows tx t.rows; ok (record { rows = m })
