-- ===== src/JoinServer/Table/Order.antt =====
-- Writes that reach a row out of the order of their transactions. `Insert` takes its number under a
-- shared lock before it writes, so two tasks may write in the other order.
use cpp.Prelude.{ℕ, ◌≤◌, ◌≡◌, refl, Option, none, some, List, [], ◌∷◌, ◌++◌, arith}
use cpp.Prelude.Int.{ℤ, size_of_int}
use cpp.Prelude.OrdMap.{find, assign, find-assign}
use cpp.Prelude.Result.{ok, throw, assertion_failed}
use cpp.JoinServer.Value.{RowData, get_int}
use cpp.JoinServer.Row.{RowVersion, Row, back, push_version, add_version}
use cpp.JoinServer.Table.Reads.{insert_row-eq-insert_new}
use cpp.JoinServer.Table.{Table, row_or_new, insert_new, insert_row}

-- The transaction of the last version.
last_tx : List RowVersion → Option ℕ
last_tx [] = none
last_tx (v ∷ rest) = some (back v rest).tx_id

back-append : (v w : RowVersion) (rest : List RowVersion) → back v (rest ++ w ∷ []) ≡ w
back-append v w [] = refl
back-append v w (x ∷ rest) = back-append x w rest

push_version-last_tx :
    (tx : ℕ) (row : Option RowData) (vs : List RowVersion) (r' : Row)
    → push_version tx row vs ≡ ok r'
    → last_tx r'.versions ≡ some tx
unfolding last_tx
push_version-last_tx tx row [] r' e = ground (arith, e)
push_version-last_tx tx row (v ∷ rest) r' e =
    ground (arith, e, back-append v (record { tx_id = tx; row_data = row }) rest)

add_version-last_tx :
    (tx : ℕ) (row : RowData) (key : ℤ) (r r' : Row)
    → get_int row 0 ≡ ok key
    → add_version tx (some row) r ≡ ok r'
    → last_tx r'.versions ≡ some tx
unfolding add_version
add_version-last_tx tx row key r r' k e =
    push_version-last_tx tx (some row) r.versions r' (rw k at e)

push_version-late :
    (tx m : ℕ) (row : Option RowData) (vs : List RowVersion)
    → last_tx vs ≡ some m
    → tx ≤ m
    → push_version tx row vs ≡ throw assertion_failed
unfolding last_tx
push_version-late tx m row [] l h = cc
push_version-late tx m row (v ∷ rest) l h = ground arith

add_version-late :
    (tx m : ℕ) (row : RowData) (key : ℤ) (r : Row)
    → get_int row 0 ≡ ok key
    → last_tx r.versions ≡ some m
    → tx ≤ m
    → add_version tx (some row) r ≡ throw assertion_failed
unfolding add_version
add_version-late tx m row key r k l h = rw k (push_version-late tx m (some row) r.versions l h)

insert_row-row :
    (tx : ℕ) (row : RowData) (key : ℤ) (t t' : Table)
    → get_int row 0 ≡ ok key
    → insert_row tx row t ≡ ok t'
    → (r' : Row) × (add_version tx (some row) (row_or_new (find (size_of_int key) t.rows)) ≡ ok r')
      × (t'.rows ≡ assign (size_of_int key) r' t.rows)
unfolding insert_new
insert_row-row tx row key t t' k e = ground (arith, e, insert_row-eq-insert_new tx row key t k)

-- After the insertion of a row by one transaction, the insertion of a row with the same key by a
-- transaction whose number is not greater fails the assertion.
pub insert_row-out_of_order :
    (tx1 tx2 : ℕ) (row1 row2 : RowData) (key : ℤ) (t t' : Table)
    → tx1 ≤ tx2
    → get_int row1 0 ≡ ok key
    → get_int row2 0 ≡ ok key
    → insert_row tx2 row2 t ≡ ok t'
    → insert_row tx1 row1 t' ≡ throw assertion_failed
unfolding insert_new
insert_row-out_of_order tx1 tx2 row1 row2 key t t' h k1 k2 e =
    let (r', f, g) = insert_row-row tx2 row2 key t t' k2 e in
    ground (
      arith,
      f,
      g,
      insert_row-eq-insert_new tx1 row1 key t' k1,
      find-assign (size_of_int key) (size_of_int key) r' t.rows,
      add_version-late tx1 tx2 row1 key r' k1,
      add_version-last_tx tx2 row2 key _ r' k2 f,
    )
