-- ===== src/Trains/Sums.antt =====
-- The tickets of all rows on each interval.
use mathlib.Core.Path.{subst}
use cpp.Prelude.{ℕ, ◌+◌, ◌<◌, ◌≡◌, refl, List, [], ◌∷◌, arith, length}
use cpp.Prelude.Result.{ok}
use cpp.Trains.{Routes, register_row, register_rows}
use cpp.Trains.Tickets.{passing, AreAdded, HaveRoom, register_cell-AreAdded}

-- The tickets of a row, and of all rows.
unfoldable pub row_total : List ℕ → ℕ
row_total [] = 0
row_total (t ∷ row) = t + row_total row

unfoldable pub total : List (List ℕ) → ℕ
unfolding row_total
total [] = 0
total (row ∷ rows) = row_total row + total rows

-- The tickets of a row over the interval `k`, forward and backward: the row is that of the station `i`,
-- from the column `j` on.
unfoldable pub row_forward : ℕ → ℕ → ℕ → List ℕ → ℕ
row_forward k i j [] = 0
row_forward k i j (t ∷ row) = passing k i j t + row_forward k i (j + 1) row

unfoldable pub row_backward : ℕ → ℕ → ℕ → List ℕ → ℕ
row_backward k i j [] = 0
row_backward k i j (t ∷ row) = passing k j i t + row_backward k i (j + 1) row

-- The passengers on the interval `k`, forward and backward, with the tickets of the rows from `i` on.
unfoldable pub forward_on : ℕ → ℕ → List (List ℕ) → ℕ
unfolding row_forward
forward_on k i [] = 0
forward_on k i (row ∷ rows) = row_forward k i 0 row + forward_on k (i + 1) rows

unfoldable pub backward_on : ℕ → ℕ → List (List ℕ) → ℕ
unfolding row_backward
backward_on k i [] = 0
backward_on k i (row ∷ rows) = row_backward k i 0 row + backward_on k (i + 1) rows

-- Every row has one column for each of the `n` stations.
abbrev pub AreSquare : ℕ → List (List ℕ) → Type 0
AreSquare n [] = Unit
AreSquare n (row ∷ rows) = (length row ≡ n) × AreSquare n rows

left-HaveRoom :
    (n i j t more : ℕ) (r r' : Routes)
    → HaveRoom n (t + more) r
    → AreAdded (λ k. passing k i j t) (λ k. passing k j i t) r r'
    → HaveRoom n more r'
left-HaveRoom n i j t more r r' w a = record {
  forward_length = omega (arith, w.forward_length, a.forwards.same_length);
  backward_length = omega (arith, w.backward_length, a.backwards.same_length);
  forward_room = λ k l. ground (arith, w.forward_room k l, w.forward_length, a.forwards.sums k, l);
  backward_room =
      λ k l. ground (arith, w.backward_room k l, w.backward_length, a.backwards.sums k, l);
}

some-HaveRoom : (n t more : ℕ) (r : Routes) → HaveRoom n (t + more) r → HaveRoom n t r
some-HaveRoom n t more r w = record {
  forward_length = w.forward_length;
  backward_length = w.backward_length;
  forward_room = λ k l. omega (arith, w.forward_room k l);
  backward_room = λ k l. omega (arith, w.backward_room k l);
}

trans-AreAdded :
    {f g f' g' : ℕ → ℕ} (r r' r'' : Routes)
    → AreAdded f g r r'
    → AreAdded f' g' r' r''
    → AreAdded (λ k. f k + f' k) (λ k. g k + g' k) r r''
trans-AreAdded r r' r'' a b = record {
  forwards = record {
    same_length = omega (arith, a.forwards.same_length, b.forwards.same_length);
    sums = λ k l.
        omega (
          arith,
          a.forwards.sums k l,
          b.forwards.sums k (omega (arith, l, a.forwards.same_length)),
        );
  };
  backwards = record {
    same_length = omega (arith, a.backwards.same_length, b.backwards.same_length);
    sums = λ k l. omega (
      arith,
      a.backwards.sums k l,
      b.backwards.sums k (omega (arith, l, a.backwards.same_length)),
    );
  };
}

none-AreAdded : (r : Routes) → AreAdded (λ k. 0) (λ k. 0) r r
none-AreAdded r = record {
  forwards = record { same_length = refl; sums = λ k l. omega arith };
  backwards = record { same_length = refl; sums = λ k l. omega arith };
}

register_row-AreAdded :
    (n i j more : ℕ) (row : List ℕ) (r : Routes)
    → i < n
    → j + length row ≡ n
    → HaveRoom n (row_total row + more) r
    → (r' : Routes) × (register_row i j row r ≡ ok r')
      × AreAdded (λ k. row_forward k i j row) (λ k. row_backward k i j row) r r'
      × HaveRoom n more r'
unfolding register_row row_total row_forward row_backward
register_row-AreAdded n i j more [] r h l w =
    (r, refl, none-AreAdded r, subst (λ m. HaveRoom n m r) (omega arith) w)
register_row-AreAdded n i j more (t ∷ row) r h l w =
    let e : (t + row_total row) + more ≡ t + (row_total row + more) = omega arith in
    let w1 : HaveRoom n (t + (row_total row + more)) r = subst (λ m. HaveRoom n m r) e w in
    let (r1, f, a) =
      register_cell-AreAdded n i j t r h (omega (arith, l))
        (some-HaveRoom n t (row_total row + more) r w1) in
    let (r2, g, b, w2) =
      register_row-AreAdded n i (j + 1) more row r1 h (omega (arith, l))
        (left-HaveRoom n i j t (row_total row + more) r r1 w1 a) in
    (r2, ground (arith, f, g), trans-AreAdded r r1 r2 a b, w2)

pub register_rows-AreAdded :
    (n i : ℕ) (rows : List (List ℕ)) (r : Routes)
    → i + length rows ≡ n
    → AreSquare n rows
    → HaveRoom n (total rows) r
    → (r' : Routes) × (register_rows n i rows r ≡ ok r')
      × AreAdded (λ k. forward_on k i rows) (λ k. backward_on k i rows) r r'
unfolding register_rows total forward_on backward_on
register_rows-AreAdded n i [] r l s w = (r, refl, none-AreAdded r)
register_rows-AreAdded n i (row ∷ rows) r l s w =
    let (r1, f, a, w1) =
      register_row-AreAdded n i 0 (total rows) row r (omega (arith, l)) (omega (arith, s.0)) w in
    let (r2, g, b) = register_rows-AreAdded n (i + 1) rows r1 (omega (arith, l)) s.1 w1 in
    (r2, ground (arith, f, g, s.0), trans-AreAdded r r1 r2 a b)
