-- ===== src/MatrixRow/Last.antt =====
-- The last cell that is not the default.
use cpp.Prelude.{
  inl, inr, ℕ, ◌≤◌, ◌<◌, ◌≡◌, refl, true, false, none, some, Option-cases, [], ◌∷◌, arith,
}
use cpp.Prelude.Int.{ℤ, eq_ℤ}
use cpp.Prelude.OrdMap.{OrdMap, Above, Ascending}
use cpp.MatrixRow.{get, lower_bound, last_cell}

eq_ℤ-refl : (v : ℤ) → eq_ℤ v v ≡ true
eq_ℤ-refl v = ground arith

get-Above : (v : ℤ) (i j : ℕ) (items : OrdMap ℤ) → i ≤ j → Above j items → get v i items ≡ v
unfolding get lower_bound
get-Above v i j [] l a = refl
get-Above v i j ((k, w) ∷ items) l a = ground (arith, a.0)

last_cell-Above :
    (v : ℤ) (j k : ℕ) (items : OrdMap ℤ) → Above j items → last_cell v items ≡ some k → j < k
unfolding last_cell
last_cell-Above v j k [] a h = cc
last_cell-Above v j k ((i, w) ∷ items) a h = ground (arith, a, h, last_cell-Above v j k items)

last_cell-none :
    (v : ℤ) (i : ℕ) (items : OrdMap ℤ) → last_cell v items ≡ none → eq_ℤ (get v i items) v ≡ true
unfolding last_cell get lower_bound
last_cell-none v i [] h = eq_ℤ-refl v
last_cell-none v i ((j, w) ∷ items) h = ground (arith, h, eq_ℤ-refl v, last_cell-none v i items)

-- In an ordered row, the last cell, if there is one, is not the default, and every cell after it is.
last_cell-IsLast :
    (v : ℤ) (k : ℕ) (items : OrdMap ℤ)
    → Ascending items
    → last_cell v items ≡ some k
    → (eq_ℤ (get v k items) v ≡ false) × ((i : ℕ) → k < i → eq_ℤ (get v i items) v ≡ true)
unfolding last_cell get lower_bound
last_cell-IsLast v k [] a h = cc
last_cell-IsLast v k ((j, w) ∷ items) a h = elim (Option-cases (last_cell v items)) [
  | inl e ↦
      (ground (arith, e, h), λ i l. ground (arith, e, h, eq_ℤ-refl v, last_cell-none v i items e))
  | inr (m, e) ↦
      let (p, q) = last_cell-IsLast v m items a.1 e in
      (
        ground (arith, e, h, p, last_cell-Above v j m items a.0 e),
        λ i l. ground (arith, e, h, q i, last_cell-Above v j m items a.0 e),
      )
]
