-- ===== src/Examples/Matrix.antt =====
-- A matrix with two rows.
use cpp.Prelude.{◌≡◌, refl, inl, inr, some, [], ◌∷◌, arith, length, suc}
use cpp.Prelude.Int.{ℤ, pos}
use cpp.Prelude.OrdMap.{OrdMap}
use cpp.Prelude.Result.{ok, throw, undefined_behaviour, ◌>>=◌}
use cpp.MatrixRow.Dump.{dump, columns}
use cpp.MatrixRow.Print.{dump-columns}
use cpp.Matrix.{Matrix, assign_cell, begin, records, size}
use cpp.Matrix.Writes.{IsAssigned, assign_cell-IsAssigned, assign_cell-null}
use cpp.Matrix.Iteration.{cells_of, records-cells_of}

abbrev two_rows : Matrix
two_rows = (1, some ((0, pos 5) ∷ (2, pos 6) ∷ [])) ∷ (4, some ((3, pos 7) ∷ [])) ∷ []

assign_cell-IsAssigned_example :
    (m : Matrix) × (assign_cell (pos 0) 4 9 (pos 1) two_rows ≡ ok m)
    × IsAssigned (pos 0) 4 9 (pos 1) two_rows m
assign_cell-IsAssigned_example =
    assign_cell-IsAssigned (pos 0) 4 9 (pos 1) two_rows
      (((omega arith, tt), (tt, tt)), (λ e. cc, (λ e. cc, tt))) (inr (omega arith, inl refl))

assign_cell-null_example : assign_cell (pos 0) 3 0 (pos 1) two_rows ≡ throw undefined_behaviour
assign_cell-null_example =
    assign_cell-null (pos 0) 3 0 (pos 1) two_rows (inr (omega arith, inl (omega arith)))

records-cells_of_example :
    ((begin two_rows >>= λ it. records (pos 0) (suc (length (cells_of (pos 0) two_rows))) it)
      ≡ ok (some (cells_of (pos 0) two_rows)))
    × (size (pos 0) two_rows ≡ ok (length (cells_of (pos 0) two_rows)))
records-cells_of_example = records-cells_of (pos 0) two_rows (λ e. cc) (refl, (refl, tt))

abbrev cells : OrdMap ℤ
cells = (2, pos 7) ∷ (5, pos 8) ∷ []

dump-columns_example : dump (pos 0) 1 6 cells ≡ columns (pos 0) cells 1 6
dump-columns_example =
    dump-columns (pos 0) 1 6 cells ((omega arith, tt), (tt, tt))
      (omega arith, omega arith, (omega arith, omega arith, tt)) (omega arith) (omega arith)
