-- ===== src/Matrix/Writes.antt =====
-- Writes to the matrix, and what is read after them.
use cpp.Prelude.{
  ℕ, ◌<◌, ◌≡◌, ◌≢◌, ◌⊎◌, inl, inr, refl, Bool-cases, none, some, [], ◌∷◌, arith, ltb, ◌==◌,
  if◌then◌else◌,
}
use cpp.Prelude.Int.{ℤ}
use cpp.Prelude.OrdMap.{Above, Ascending}
use cpp.Prelude.Result.{ok, throw, undefined_behaviour, ◌>>=◌}
use cpp.MatrixRow.{set_cell}
use cpp.MatrixRow.Cells.{get-set_cell}
use cpp.Matrix.{Row, Matrix, const_row, insert_row, write_row, assign_cell, get_cell}

-- The rows ascend, and none is null.
abbrev pub AllPresent : Matrix → Type 0
AllPresent [] = Unit
AllPresent ((j, r) ∷ items) = (r ≢ none) × AllPresent items

abbrev pub IsMatrix : Matrix → Type 0
IsMatrix m = Ascending m × AllPresent m

-- The row is there, or comes after all rows.
abbrev pub IsReady : ℕ → Matrix → Type 0
IsReady ix [] = Unit
IsReady ix ((j, r) ∷ items) = (j ≡ ix) ⊎ ((j < ix) × IsReady ix items)

-- The row is not there, but a later one is.
abbrev pub IsBefore : ℕ → Matrix → Type 0
IsBefore ix [] = ⊥
IsBefore ix ((j, r) ∷ items) = (ix < j) ⊎ ((j < ix) × IsBefore ix items)

-- What a write of the row `ix` leaves.
record IsWritten (ix : ℕ) (change : Row → Row) (m m' : Matrix) : Type 0 where
  present : AllPresent m'
  above : (i : ℕ) → i < ix → Above i m → Above i m'
  ascending : Ascending m'
  reads :
      (i : ℕ)
      → const_row i m'
        ≡ (if i == ix then (const_row ix m >>= λ row. ok (change row)) else const_row i m)

write_row-IsWritten :
    (ix : ℕ) (change : Row → Row) (m : Matrix)
    → Ascending m
    → AllPresent m
    → IsReady ix m
    → (m' : Matrix) × (write_row ix change (insert_row ix m) ≡ ok m') × IsWritten ix change m m'
unfolding const_row insert_row write_row
write_row-IsWritten ix change [] a p r = (
  (ix, some (change [])) ∷ [],
  ground arith,
  record {
    present = (λ e. cc, tt);
    above = λ i l h. (l, tt);
    ascending = (tt, tt);
    reads = λ i. ground arith;
  },
)
write_row-IsWritten ix change ((j, none) ∷ items) a p r = absurd (p.0 refl)
write_row-IsWritten ix change ((j, some row) ∷ items) a p (inl e) = (
  (j, some (change row)) ∷ items,
  ground (arith, e),
  record {
    present = (λ q. cc, p.1);
    above = λ i l h. h;
    ascending = a;
    reads = λ i. ground (arith, e, a);
  },
)
write_row-IsWritten ix change ((j, some row) ∷ items) a p (inr (l, r)) =
    let (m', e, w) = write_row-IsWritten ix change items a.1 p.1 r in
    (
      (j, some row) ∷ m',
      ground (arith, l, e),
      record {
        present = (p.0, w.present);
        above = λ i k h. (h.0, w.above i k h.1);
        ascending = (w.above j l a.0, w.ascending);
        reads = λ i. ground (arith, l, w.reads i);
      },
    )

-- What `matrix[ix][col] = x` leaves: every cell but this one reads as before.
abbrev pub IsAssigned : ℤ → ℕ → ℕ → ℤ → Matrix → Matrix → Type 0
IsAssigned v ix col x m m' =
    IsMatrix m'
    × ((k : ℕ) → get_cell v ix k m' ≡ (if k == col then ok x else get_cell v ix k m))
    × ((i k : ℕ) → i ≢ ix → get_cell v i k m' ≡ get_cell v i k m)

const_row-ok : (ix : ℕ) (m : Matrix) → AllPresent m → (row : Row) × (const_row ix m ≡ ok row)
unfolding const_row
const_row-ok ix [] p = ([], refl)
const_row-ok ix ((j, none) ∷ items) p = absurd (p.0 refl)
const_row-ok ix ((j, some row) ∷ items) p = elim (Bool-cases (ltb j ix)) [
  | inl e ↦ let (r, q) = const_row-ok ix items p.1 in (r, ground (arith, e, q))
  | inr e ↦ elim (Bool-cases (j == ix)) [
    | inl f ↦ (row, ground (arith, e, f))
    | inr f ↦ ([], ground (arith, e, f))
  ]
]

-- A write to a matrix without null rows, in a row that is there or comes after all others, returns:
-- the cell reads as what was written, every other cell as before, and no row is null.
pub assign_cell-IsAssigned :
    (v : ℤ) (ix col : ℕ) (x : ℤ) (m : Matrix)
    → IsMatrix m
    → IsReady ix m
    → (m' : Matrix) × (assign_cell v ix col x m ≡ ok m') × IsAssigned v ix col x m m'
unfolding assign_cell get_cell
assign_cell-IsAssigned v ix col x m (a, p) r =
    let change : Row → Row = λ row. set_cell v col x row in
    let (m', e, w) = write_row-IsWritten ix change m a p r in
    let (row, f) = const_row-ok ix m p in
    (
      m',
      e,
      (
        (w.ascending, w.present),
        λ k. ground (arith, w.reads ix, f, get-set_cell v x col k row),
        λ i k n. ground (arith, w.reads i, n),
      ),
    )

-- A write in a row that is not there, before a row that is, uses a null pointer.
pub assign_cell-null :
    (v : ℤ) (ix col : ℕ) (x : ℤ) (m : Matrix)
    → IsBefore ix m
    → assign_cell v ix col x m ≡ throw undefined_behaviour
unfolding assign_cell insert_row write_row
assign_cell-null v ix col x [] b = absurd b
assign_cell-null v ix col x ((j, r) ∷ items) (inl l) = ground (arith, l)
assign_cell-null v ix col x ((j, r) ∷ items) (inr (l, b)) =
    ground (arith, l, assign_cell-null v ix col x items b)
