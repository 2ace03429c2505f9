-- ===== src/MatrixRow/Cells.antt =====
-- Reads after writes, and the number of cells that are not the default.
use cpp.Prelude.{ℕ, ◌+◌, ◌≡◌, true, [], ◌∷◌, arith, ◌==◌, if◌then◌else◌}
use cpp.Prelude.Int.{ℤ, eq_ℤ}
use cpp.Prelude.OrdMap.{OrdMap, assign, Ascending, assign-Ascending}
use cpp.MatrixRow.{get, set_cell, size}

pub get-set_cell :
    (v x : ℤ) (ix k : ℕ) (items : OrdMap ℤ)
    → get v k (set_cell v ix x items) ≡ (if k == ix then x else get v k items)
unfolding get set_cell
get-set_cell v x ix k [] = ground arith
get-set_cell v x ix k ((j, w) ∷ items) = ground (arith, get-set_cell v x ix k items)

set_cell-assign : (v x : ℤ) (ix : ℕ) (items : OrdMap ℤ) → set_cell v ix x items ≡ assign ix x items
unfolding set_cell assign
set_cell-assign v x ix [] = ground arith
set_cell-assign v x ix ((j, w) ∷ items) = ground (arith, set_cell-assign v x ix items)

-- The cell of an ordered row that is written reads as what was written, every other index reads as
-- before, and the row stays ordered.
set_cell-IsSet :
    (v x : ℤ) (ix : ℕ) (items : OrdMap ℤ)
    → Ascending items
    → ((k : ℕ) → get v k (set_cell v ix x items) ≡ (if k == ix then x else get v k items))
      × Ascending (set_cell v ix x items)
set_cell-IsSet v x ix items h = (
  λ k. get-set_cell v x ix k items,
  rw (set_cell-assign v x ix items) (assign-Ascending ix x items h),
)

eq_ℤ-refl : (v : ℤ) → eq_ℤ v v ≡ true
eq_ℤ-refl v = ground arith

abbrev pub counted : ℤ → ℤ → ℕ
counted v x = if eq_ℤ x v then 0 else 1

-- A write changes the number of cells that are not the default by the cell that is written: it
-- counts what is written and no more what was read there before.
size-set_cell :
    (v x : ℤ) (ix : ℕ) (items : OrdMap ℤ)
    → size v (set_cell v ix x items) + counted v (get v ix items) ≡ size v items + counted v x
unfolding get set_cell size
size-set_cell v x ix [] = ground (arith, eq_ℤ-refl v)
size-set_cell v x ix ((j, w) ∷ items) = ground (arith, eq_ℤ-refl v, size-set_cell v x ix items)
