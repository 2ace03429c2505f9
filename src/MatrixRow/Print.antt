-- ===== src/MatrixRow/Print.antt =====
-- What a row prints when its cells are between the columns.
use mathlib.Core.List.{append_assoc}
use cpp.Prelude.{
  ℕ, zero, suc, ◌+◌, ◌-◌, ◌%◌, ◌^◌, ◌≤◌, ◌<◌, ◌≡◌, refl, ap, ◌∙◌, [], ◌∷◌, ◌++◌, arith, max, Str,
}
use cpp.Prelude.Int.{ℤ}
use cpp.Prelude.Decimal.{to_string}
use cpp.Prelude.OrdMap.{OrdMap, Above, Ascending}
use cpp.MatrixRow.{get, lower_bound}
use cpp.MatrixRow.Dump.{
  delimiter, delimiter_unless, defaults, dump_cells, after_last, dump_tail, dump, columns, Between,
}

dump_tail-columns :
    (v : ℤ) (col_max n i : ℕ) → i + n ≡ col_max + 1 → dump_tail v col_max n i ≡ columns v [] i n
unfolding dump_tail columns get lower_bound
dump_tail-columns v col_max zero i e = refl
dump_tail-columns v col_max (suc n) i e =
    ground (arith, e, dump_tail-columns v col_max n (i + 1) (omega (arith, e)))

get-past : (v w : ℤ) (j k : ℕ) (items : OrdMap ℤ) → j < k → get v k ((j, w) ∷ items) ≡ get v k items
unfolding get lower_bound
get-past v w j k items l = ground (arith, l)

get-before : (v w : ℤ) (j k : ℕ) (items : OrdMap ℤ) → k < j → get v k ((j, w) ∷ items) ≡ v
unfolding get lower_bound
get-before v w j k items l = ground (arith, l)

get-at : (v w : ℤ) (j : ℕ) (items : OrdMap ℤ) → get v j ((j, w) ∷ items) ≡ w
unfolding get lower_bound
get-at v w j items = ground arith

columns-past :
    (v w : ℤ) (j k n : ℕ) (items : OrdMap ℤ)
    → j < k
    → columns v ((j, w) ∷ items) k n ≡ columns v items k n
unfolding columns
columns-past v w j k zero items l = refl
columns-past v w j k (suc n) items l =
    ground (arith, get-past v w j k items l, columns-past v w j (k + 1) n items (omega (arith, l)))

columns_step :
    (v w : ℤ) (j i n : ℕ) (items : OrdMap ℤ)
    → i < j
    → 0 < n
    → columns v ((j, w) ∷ items) i (suc n)
      ≡ to_string v ++ delimiter ++ columns v ((j, w) ∷ items) (i + 1) n
unfolding columns
columns_step v w j i n items l z = ground (arith, l, z, get-before v w j i items l)

columns_at :
    (v w : ℤ) (col_max j m : ℕ) (items : OrdMap ℤ)
    → j + m ≡ col_max
    → columns v ((j, w) ∷ items) j (suc m)
      ≡ to_string w ++ delimiter_unless col_max j ++ columns v items (j + 1) m
unfolding columns
columns_at v w col_max j m items e =
    ground (arith, e, get-at v w j items, columns-past v w j (j + 1) m items (omega arith))

columns-before :
    (v w : ℤ) (j i gap m n : ℕ) (items : OrdMap ℤ)
    → i + gap ≡ j
    → n ≡ gap + suc m
    → columns v ((j, w) ∷ items) i n ≡ defaults v gap ++ columns v ((j, w) ∷ items) j (suc m)
unfolding defaults
columns-before v w j i zero m n items e f =
    let p : i ≡ j = omega (arith, e) in let q : n ≡ suc m = omega (arith, f) in rw (p, q)
columns-before v w j i (suc gap) m zero items e f = absurd (omega (arith, f))
columns-before v w j i (suc gap) m (suc n) items e f =
    rw
      (
        columns_step v w j i n items (omega (arith, e)) (omega (arith, f)),
        columns-before v w j (i + 1) gap m n items (omega (arith, e)) (omega (arith, f)),
      )
      (simp append_assoc)

Between-next :
    (j lo hi : ℕ) (items : OrdMap ℤ)
    → Above j items
    → Ascending items
    → Between lo hi items
    → Between (j + 1) hi items
Between-next j lo hi [] a c b = tt
Between-next j lo hi ((k, w) ∷ items) a c b =
    (omega (arith, a.0), b.1, Between-next j lo hi items a.1 c.1 b.2)

cells_then_tail :
    (v : ℤ) (col_max i : ℕ) (items : OrdMap ℤ)
    → Ascending items
    → Between i col_max items
    → i ≤ col_max + 1
    → col_max + 1 < 2 ^ 64
    → dump_cells v col_max i items
        ++ dump_tail v col_max (col_max + 1 - after_last i items) (after_last i items)
      ≡ columns v items i (col_max + 1 - i)
unfolding dump_cells after_last
cells_then_tail v col_max i [] a b l h =
    dump_tail-columns v col_max (col_max + 1 - i) i (omega (arith, l))
cells_then_tail v col_max i ((j, w) ∷ items) a b l h =
    let m : max i j ≡ j = omega (arith, b.0) in
    let n : (j + 1) % 2 ^ 64 ≡ j + 1 = omega (arith, b.1, h) in
    let rest =
      dump_tail v col_max (col_max + 1 - after_last (j + 1) items) (after_last (j + 1) items) in
    let ih =
      cells_then_tail v col_max (j + 1) items a.1 (Between-next j i col_max items a.0 a.1 b.2)
        (omega (arith, b.1)) h in
    let k : col_max + 1 - (j + 1) ≡ col_max - j = omega arith in
    let before =
      columns-before v w j i (j - i) (col_max - j) (col_max + 1 - i) items (omega (arith, b.0))
        (omega (arith, b.0, b.1)) in
    let front : Str = defaults v (j - i) ++ to_string w ++ delimiter_unless col_max j in
    let left : dump_cells v col_max i ((j, w) ∷ items) ++ rest
        ≡ front ++ (dump_cells v col_max (j + 1) items ++ rest) =
      rw (m, n) (simp append_assoc) in
    let right : front ++ columns v items (j + 1) (col_max - j)
        ≡ columns v ((j, w) ∷ items) i (col_max + 1 - i) =
      rw (before, columns_at v w col_max j (col_max - j) items (omega (arith, b.1)))
        (simp append_assoc) in
    let same : after_last i ((j, w) ∷ items) ≡ after_last (j + 1) items = rw n in
    rw same (left ∙ ap (λ s. front ++ s) (ih ∙ ap (columns v items (j + 1)) k) ∙ right)

lower_bound-Between :
    (lo hi : ℕ) (items : OrdMap ℤ) → Between lo hi items → lower_bound lo items ≡ items
unfolding lower_bound
lower_bound-Between lo hi [] b = refl
lower_bound-Between lo hi ((j, w) ∷ items) b = ground (arith, b)

-- When all cells of a row are between the two columns, and the last column is below 2^64 - 1, Dump
-- prints the value of every column from the first to the last, the default value where there is no
-- cell, with the delimiter between them.
pub dump-columns :
    (v : ℤ) (col_min col_max : ℕ) (items : OrdMap ℤ)
    → Ascending items
    → Between col_min col_max items
    → col_min ≤ col_max + 1
    → col_max + 1 < 2 ^ 64
    → dump v col_min col_max items ≡ columns v items col_min (col_max + 1 - col_min)
unfolding dump
dump-columns v col_min col_max items a b l h =
    rw (lower_bound-Between col_min col_max items b)
      (cells_then_tail v col_max col_min items a b l h)
