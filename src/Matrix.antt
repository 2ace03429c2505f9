-- ===== src/Matrix.antt =====
-- The sparse matrix: 06_matrix/matrix.hpp (`TMatrix<int, V>`), an ordered list of rows. A row is `none`
-- where its pointer is null; what a null pointer is used for is undefined.
pub mod Writes
pub mod Iteration
use cpp.Prelude.{
  ℕ, zero, suc, ◌+◌, ◌%◌, ◌^◌, Bool, true, false, Option, none, some, List, [], ◌∷◌, ◌++◌, ltb,
  ◌==◌, ◌&&◌, if◌then◌else◌, ◌-◌, max, take, length, Str,
}
use cpp.Prelude.Int.{ℤ, pos, eq_ℤ, ltb_ℤ, size_of_int}
use cpp.Prelude.OrdMap.{OrdMap}
use cpp.Prelude.Result.{Result, ok, throw, undefined_behaviour, ◌>>=◌}
use cpp.MatrixRow.{get, set_cell}
use cpp.MatrixRow as MatrixRow
use cpp.MatrixRow.Dump as Dump

abbrev pub Row : Type 0
Row = OrdMap ℤ

-- `std::list<TRowItem>`
abbrev pub Matrix : Type 0
Matrix = List (ℕ × Option Row)

-- `*item.row`
abbrev pub row_of : Option Row → Result Row
row_of none = throw undefined_behaviour
row_of (some r) = ok r

-- `operator[]` of a constant matrix
unfoldable pub const_row : ℕ → Matrix → Result Row
const_row ix [] = ok []
const_row ix ((j, r) ∷ items) =
    let rest = const_row ix items in if ltb j ix then rest else if j == ix then row_of r else ok []

-- `operator[]`: the row that is there, or a new one. A new one before a later row is null.
unfoldable pub insert_row : ℕ → Matrix → Matrix
insert_row ix [] = (ix, some []) ∷ []
insert_row ix ((j, r) ∷ items) =
    let rest = insert_row ix items in
    if ltb j ix
    then (j, r) ∷ rest
    else if j == ix
    then (j, r) ∷ items
    else (ix, none) ∷ (j, r) ∷ items

-- The write through the reference to the row `ix`.
unfoldable pub write_row : ℕ → (Row → Row) → Matrix → Result Matrix
write_row ix change [] = throw undefined_behaviour
write_row ix change ((j, r) ∷ items) =
    let rest = write_row ix change items in
    if j == ix
    then (do row ← row_of r; ok ((j, some (change row)) ∷ items))
    else (do m ← rest; ok ((j, r) ∷ m))

-- `matrix[ix][col] = x`
unfoldable pub assign_cell : ℤ → ℕ → ℕ → ℤ → Matrix → Result Matrix
unfolding insert_row write_row set_cell
assign_cell v ix col x m = write_row ix (λ row. set_cell v col x row) (insert_row ix m)

-- `matrix[ix][col]` of a constant matrix
unfoldable pub get_cell : ℤ → ℕ → ℕ → Matrix → Result ℤ
unfolding const_row get
get_cell v ix col m = do row ← const_row ix m; ok (get v col row)

-- `Size`
unfoldable pub size : ℤ → Matrix → Result ℕ
unfolding MatrixRow.size
size v [] = ok 0
size v ((j, r) ∷ items) = do row ← row_of r; sum ← size v items; ok (MatrixRow.size v row + sum)

-- `TIterator`: the rows from `rowsIt` on, and the cells of its row from `cellIt` on.
pub record Iterator : Type 0 where
  pub rows : Matrix
  pub cells : Row

-- `begin`
unfoldable pub begin : Matrix → Result Iterator
begin [] = throw undefined_behaviour
begin ((j, r) ∷ items) = do row ← row_of r; ok record { rows = (j, r) ∷ items; cells = row }

-- `operator==` with `end`, whose cell is the end of the last row.
unfoldable pub is_end : Iterator → Bool
is_end it = elim it.rows [
  | [] ↦ (elim it.cells [ [] ↦ true | c ∷ cells ↦ false ])
  | r ∷ rows ↦ false
]

-- `operator*`
unfoldable pub deref : List (ℕ × Option Row) → Row → Result (ℕ × ℕ × ℤ)
deref [] cells = throw undefined_behaviour
deref ((j, r) ∷ rows) [] = throw undefined_behaviour
deref ((j, r) ∷ rows) ((k, x) ∷ cells) = ok (j, k, x)

-- The loop of the row's `operator++`, after its first step.
unfoldable pub skip_default : ℤ → Row → Row
skip_default v [] = []
skip_default v ((k, x) ∷ cells) =
    let rest = skip_default v cells in if eq_ℤ x v then rest else (k, x) ∷ cells

-- The end of a row is left for the first cell of the next row.
unfoldable pub next_row : List (ℕ × Option Row) → Row → Result Iterator
next_row [] [] = throw undefined_behaviour
next_row (r ∷ []) [] = ok record { rows = []; cells = [] }
next_row (r ∷ (j, s) ∷ rows) [] = do row ← row_of s; ok record { rows = (j, s) ∷ rows; cells = row }
next_row rows (c ∷ cells) = ok record { rows = rows; cells = c ∷ cells }

-- `operator++`
unfoldable pub advance : ℤ → List (ℕ × Option Row) → Row → Result Iterator
unfolding skip_default next_row
advance v rows [] = throw undefined_behaviour
advance v rows (c ∷ cells) = next_row rows (skip_default v cells)

-- `for (const auto& record : matrix)`, on fuel.
unfoldable pub records : ℤ → ℕ → Iterator → Result (Option (List (ℕ × ℕ × ℤ)))
unfolding is_end deref advance
records v zero it = ok none
records v (suc fuel) it = elim (is_end it) [
  | true ↦ ok (some [])
  | false ↦ do
    c ← deref it.rows it.cells
    it' ← advance v it.rows it.cells
    rest ← records v fuel it'
    elim rest [ none ↦ ok none | some cs ↦ ok (some (c ∷ cs)) ]
]

-- `std::lower_bound` and `std::upper_bound` on the rows: those from the first one not below, or above.
unfoldable pub lower_rows : ℕ → Matrix → Matrix
lower_rows ix [] = []
lower_rows ix ((j, r) ∷ items) =
    let rest = lower_rows ix items in if ltb j ix then rest else (j, r) ∷ items

unfoldable pub upper_rows : ℕ → Matrix → Matrix
upper_rows ix [] = []
upper_rows ix ((j, r) ∷ items) =
    let rest = upper_rows ix items in if ltb ix j then (j, r) ∷ items else rest

-- So many lines of the default row.
unfoldable pub default_lines : ℤ → ℕ → ℕ → ℕ → Str
default_lines v col_min col_max zero = []
default_lines v col_min col_max (suc n) =
    Dump.dump v col_min col_max [] ++ (10 ∷ default_lines v col_min col_max n)

-- The loop of `Dump`, from the row `ix`.
unfoldable pub dump_rows : ℤ → ℕ → ℕ → ℕ → Matrix → Result Str
unfolding default_lines
dump_rows v col_min col_max ix [] = ok []
dump_rows v col_min col_max ix ((j, r) ∷ items) = do
  row ← row_of r
  rest ← dump_rows v col_min col_max ((max ix j + 1) % 2 ^ 64) items
  ok (default_lines v col_min col_max (j - ix) ++ Dump.dump v col_min col_max row ++ (10 ∷ rest))

-- `Dump`: the loop runs past the last row when its end lies before its beginning.
unfoldable pub dump : ℤ → ℕ → ℕ → ℕ → ℕ → Matrix → Result Str
unfolding lower_rows upper_rows dump_rows
dump v row_min row_max col_min col_max m =
    if ltb (length (lower_rows row_min m)) (length (upper_rows row_max m))
    then throw undefined_behaviour
    else dump_rows v col_min col_max row_min (
        take (length (lower_rows row_min m) - length (upper_rows row_max m)) (lower_rows row_min m))

-- The loop of `LongestRowLength`
unfoldable pub longest : ℤ → ℤ → Matrix → Result ℤ
longest v result [] = ok result
longest v result ((j, r) ∷ items) = do
  row ← row_of r
  longest v
      (if ltb_ℤ result (MatrixRow.last_index v row) then MatrixRow.last_index v row else result)
      items

-- `LongestRowLength`
unfoldable pub longest_row_length : ℤ → Matrix → Result ℕ
unfolding longest
longest_row_length v m = do result ← longest v (pos 0) m; ok (size_of_int result)
