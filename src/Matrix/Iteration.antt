-- ===== src/Matrix/Iteration.antt =====
-- The loop over a matrix visits its cells.
use mathlib.Core.Path.{subst}
use cpp.Prelude.{
  ℕ, zero, suc, ◌<◌, ◌≡◌, ◌≢◌, ◌⊎◌, inl, inr, refl, ap, sym, ◌∙◌, false, Bool-cases, Option, none,
  some, List, [], ◌∷◌, ◌++◌, arith, if◌then◌else◌, length, length-append,
}
use cpp.Prelude.Int.{ℤ, eq_ℤ}
use cpp.Prelude.Result.{Result, ok, ◌>>=◌}
use cpp.MatrixRow as MatrixRow
use cpp.Matrix.{Row, Matrix, Iterator, size, begin, skip_default, next_row, advance, records}

abbrev pub Cell : Type 0
Cell = ℕ × ℕ × ℤ

-- The cells that are not the default, in their order.
unfoldable pub cells_of_row : ℤ → ℕ → Row → List Cell
cells_of_row v j [] = []
cells_of_row v j ((k, x) ∷ cells) =
    let rest = cells_of_row v j cells in if eq_ℤ x v then rest else (j, k, x) ∷ rest

unfoldable pub cells_of : ℤ → Matrix → List Cell
unfolding cells_of_row
cells_of v [] = []
cells_of v ((j, none) ∷ items) = cells_of v items
cells_of v ((j, some row) ∷ items) = cells_of_row v j row ++ cells_of v items

-- Each row is there and begins with a cell that is not the default.
abbrev pub BeginsWithCell : ℤ → Option Row → Type 0
BeginsWithCell v none = ⊥
BeginsWithCell v (some []) = ⊥
BeginsWithCell v (some ((k, x) ∷ cells)) = eq_ℤ x v ≡ false

abbrev pub AllBeginWithCell : ℤ → Matrix → Type 0
AllBeginWithCell v [] = Unit
AllBeginWithCell v ((j, r) ∷ items) = BeginsWithCell v r × AllBeginWithCell v items

-- The cells from an iterator on.
abbrev left : ℤ → List (ℕ × Option Row) → Row → List Cell
left v [] cells = []
left v ((j, r) ∷ rows) cells = cells_of_row v j cells ++ cells_of v rows

cells_of_row-skip :
    (v : ℤ) (j : ℕ) (cells : Row) → cells_of_row v j (skip_default v cells) ≡ cells_of_row v j cells
unfolding cells_of_row skip_default
cells_of_row-skip v j [] = refl
cells_of_row-skip v j ((k, x) ∷ cells) = ground (arith, cells_of_row-skip v j cells)

-- An iterator stands at a cell that is not the default, or at the end.
abbrev Stands : ℤ → List (ℕ × Option Row) → Row → Type 0
Stands v [] cells = cells ≡ []
Stands v ((j, r) ∷ rows) cells = BeginsWithCell v (some cells) × AllBeginWithCell v rows

skip_default-cases :
    (v : ℤ) (cells : Row)
    → (skip_default v cells ≡ [])
      ⊎ ((k : ℕ) × (x : ℤ) × (rest : Row) × (skip_default v cells ≡ (k, x) ∷ rest)
          × (eq_ℤ x v ≡ false))
unfolding skip_default
skip_default-cases v [] = inl refl
skip_default-cases v ((k, x) ∷ cells) = elim (Bool-cases (eq_ℤ x v)) [
  | inl e ↦ elim (skip_default-cases v cells) [
    | inl f ↦ inl (ground (arith, e, f))
    | inr (l, y, rest, f, g) ↦ inr (l, y, rest, ground (arith, e, f), g)
  ]
  | inr e ↦ inr (k, x, cells, ground (arith, e), e)
]

-- A step leads to a cell, or to the end, with the cells after it.
abbrev Leads : ℤ → Result Iterator → List Cell → Type 0
Leads v call rest =
    (it : Iterator) × (call ≡ ok it) × Stands v it.rows it.cells × (left v it.rows it.cells ≡ rest)

next_row-Leads :
    (v : ℤ) (j : ℕ) (r : Option Row) (rows : List (ℕ × Option Row)) (cells : Row)
    → AllBeginWithCell v rows
    → (cells ≡ []) ⊎ BeginsWithCell v (some cells)
    → Leads v (next_row ((j, r) ∷ rows) cells) (cells_of_row v j cells ++ cells_of v rows)
unfolding next_row cells_of
next_row-Leads v j r [] [] a b = (record { rows = []; cells = [] }, refl, refl, refl)
next_row-Leads v j r ((i, none) ∷ rows) [] a b = absurd a.0
next_row-Leads v j r ((i, some row) ∷ rows) [] a b =
    (record { rows = (i, some row) ∷ rows; cells = row }, refl, a, refl)
next_row-Leads v j r rows (c ∷ cells) a (inl e) = cc
next_row-Leads v j r rows (c ∷ cells) a (inr b) =
    (record { rows = (j, r) ∷ rows; cells = c ∷ cells }, refl, (b, a), refl)

advance-Leads :
    (v : ℤ) (j k : ℕ) (x : ℤ) (r : Option Row) (rows : List (ℕ × Option Row)) (cells : Row)
    → AllBeginWithCell v rows
    → Leads v
        (advance v ((j, r) ∷ rows) ((k, x) ∷ cells))
        (cells_of_row v j cells ++ cells_of v rows)
unfolding advance
advance-Leads v j k x r rows cells a =
    let b : (skip_default v cells ≡ []) ⊎ BeginsWithCell v (some (skip_default v cells)) =
      elim (skip_default-cases v cells) [
        | inl e ↦ inl e
        | inr (l, y, rest, f, g) ↦ inr (subst (λ s. BeginsWithCell v (some s)) (sym f) g)
      ] in
    let (it, e, s, l) = next_row-Leads v j r rows (skip_default v cells) a b in
    (it, e, s, l ∙ ap (λ t. t ++ cells_of v rows) (cells_of_row-skip v j cells))

left_front :
    (v : ℤ) (j k : ℕ) (x : ℤ) (r : Option Row) (rows : List (ℕ × Option Row)) (cells : Row)
    → eq_ℤ x v ≡ false
    → left v ((j, r) ∷ rows) ((k, x) ∷ cells)
      ≡ (j, k, x) ∷ (cells_of_row v j cells ++ cells_of v rows)
unfolding cells_of_row
left_front v j k x r rows cells e = ground (arith, e)

records-left :
    (v : ℤ) (fuel : ℕ) (rows : List (ℕ × Option Row)) (cells : Row)
    → Stands v rows cells
    → length (left v rows cells) < fuel
    → records v fuel (record { rows = rows; cells = cells }) ≡ ok (some (left v rows cells))
unfolding records
records-left v zero rows cells s l = absurd (omega (arith, l))
records-left v (suc fuel) [] cells s l = ground (arith, s)
records-left v (suc fuel) ((j, r) ∷ rows) [] s l = absurd s.0
records-left v (suc fuel) ((j, r) ∷ rows) ((k, x) ∷ cells) s l =
    let (it', e, t, q) = advance-Leads v j k x r rows cells s.1 in
    let f = left_front v j k x r rows cells s.0 in
    let m : length (left v it'.rows it'.cells) < fuel =
      omega (arith, l, ap length f, ap length q) in
    let g : next_row ((j, r) ∷ rows) (skip_default v cells) ≡ ok it' = e in
    let h : records v fuel it' ≡ ok (some (left v it'.rows it'.cells)) =
      records-left v fuel it'.rows it'.cells t m in
    ground (arith, g, q, f, h)

begin-Stands :
    (v : ℤ) (m : Matrix)
    → m ≢ []
    → AllBeginWithCell v m
    → (it : Iterator) × (begin m ≡ ok it)
      × Stands v it.rows it.cells
      × (left v it.rows it.cells ≡ cells_of v m)
unfolding begin cells_of
begin-Stands v [] n a = absurd (n refl)
begin-Stands v ((j, none) ∷ rows) n a = absurd a.0
begin-Stands v ((j, some row) ∷ rows) n a =
    (record { rows = (j, some row) ∷ rows; cells = row }, refl, a, refl)

size-cells_of_row :
    (v : ℤ) (j : ℕ) (row : Row) → MatrixRow.size v row ≡ length (cells_of_row v j row)
unfolding cells_of_row MatrixRow.size
size-cells_of_row v j [] = refl
size-cells_of_row v j ((k, x) ∷ cells) = ground (arith, size-cells_of_row v j cells)

size-cells_of : (v : ℤ) (m : Matrix) → AllBeginWithCell v m → size v m ≡ ok (length (cells_of v m))
unfolding size cells_of
size-cells_of v [] a = refl
size-cells_of v ((j, none) ∷ rows) a = absurd a.0
size-cells_of v ((j, some row) ∷ rows) a = ground (
  arith,
  size-cells_of v rows a.1,
  size-cells_of_row v j row,
  length-append (cells_of_row v j row) (cells_of v rows),
)

-- When a matrix has rows, none of them null, and each begins with a cell that is not the default,
-- the loop over the matrix visits exactly the cells that are not the default, in the order of the
-- rows and their columns, as many as Size returns.
pub records-cells_of :
    (v : ℤ) (m : Matrix)
    → m ≢ []
    → AllBeginWithCell v m
    → (begin m >>= λ it. records v (suc (length (cells_of v m))) it) ≡ ok (some (cells_of v m))
      × (size v m ≡ ok (length (cells_of v m)))
records-cells_of v m n a =
    let (it, e, s, l) = begin-Stands v m n a in
    let k : length (left v it.rows it.cells) < suc (length (cells_of v m)) =
      omega (arith, ap length l) in
    let r = records-left v (suc (length (cells_of v m))) it.rows it.cells s k in
    (ground (arith, e, r, l), size-cells_of v m a)
