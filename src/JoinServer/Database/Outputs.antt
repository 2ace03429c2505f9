-- ===== src/JoinServer/Database/Outputs.antt =====
-- What SELECT, INTERSECT and DIFFERENCE push into the queue.
use cpp.Prelude.{
  ℕ, ◌<◌, ◌≡◌, refl, sym, ◌∙◌, Option, none, some, List, [], ◌∷◌, ◌++◌, arith, length, drop, Str,
  Option-cases, inl, inr, ap,
}
use cpp.Prelude.OrdMap.{
  OrdMap, find, Above, Ascending, AllValues, AllValues-find, Above-find, choose, chosen,
  find-choose, choose-Ascending,
}
use cpp.Prelude.Result.{ok}
use cpp.JoinServer.Value.{RowData, empty_row, merge_with}
use cpp.JoinServer.Row.{Row}
use cpp.JoinServer.Table.{Table, get_row, iterate_rows, iterate}
use cpp.JoinServer.Database.{
  Item, row, Database, Handler, succeed, find_table, next_tx, push_present, push_both, push_left,
  push_right, for_each, do_select, do_intersection, do_difference,
}
use cpp.JoinServer.Database.Reads.{IsStored, AllStored, AllStored-find, read}

-- The rows that are there, of the calls of a handler.
present : List (ℕ × Option RowData) → OrdMap RowData
present [] = []
present ((k, none) ∷ rest) = present rest
present ((k, some d) ∷ rest) = (k, d) ∷ present rest

-- The rows of a map, as items of the queue in the order of their keys.
unfoldable pub items_of : OrdMap RowData → List Item
items_of [] = []
items_of ((k, d) ∷ m) = row (some d) ∷ items_of m

Above-present : (i tx : ℕ) (m : OrdMap Row) → Above i m → Above i (present (iterate_rows tx m))
unfolding present iterate_rows
Above-present i tx [] a = tt
Above-present i tx ((k, r) ∷ m) a = ground (arith, Above-present i tx m a.1)

present-Ascending :
    (tx : ℕ) (m : OrdMap Row) → Ascending m → Ascending (present (iterate_rows tx m))
unfolding present iterate_rows
present-Ascending tx [] a = tt
present-Ascending tx ((k, r) ∷ m) a =
    ground (arith, present-Ascending tx m a.1, Above-present k tx m a.0)

find-present :
    (tx j : ℕ) (m : OrdMap Row)
    → Ascending m
    → find j (present (iterate_rows tx m)) ≡ get_row tx j (record { rows = m })
unfolding present iterate_rows get_row find
find-present tx j [] a = refl
find-present tx j ((k, r) ∷ m) a = ground (
  arith,
  find-present tx j m a.1,
  Above-find k (present (iterate_rows tx m)) (Above-present k tx m a.0),
)

push_present-items : (l : List (ℕ × Option RowData)) → push_present l ≡ items_of (present l)
unfolding push_present items_of present
push_present-items [] = refl
push_present-items ((k, none) ∷ rest) = push_present-items rest
push_present-items ((k, some d) ∷ rest) = rw (push_present-items rest)

-- The handler pushes the row that `f` gives, and nothing where it gives none.
record Pushes (handler : Handler) (f : ℕ → RowData → Option RowData) : Type 0 where
  on_absent : (k : ℕ) → handler k none ≡ ok []
  on_none : (k : ℕ) (d : RowData) → 0 < length d.values → f k d ≡ none → handler k (some d) ≡ ok []
  on_some :
      (k : ℕ) (d e : RowData)
      → 0 < length d.values
      → f k d ≡ some e
      → handler k (some d) ≡ ok (row (some e) ∷ [])

abbrev Filled : RowData → Type 0
Filled d = 0 < length d.values

for_each-items :
    (handler : Handler) (f : ℕ → RowData → Option RowData) (l : List (ℕ × Option RowData))
    → Pushes handler f
    → AllValues Filled (present l)
    → for_each handler l ≡ ok (items_of (choose f (present l)))
unfolding for_each items_of choose present
for_each-items handler f [] p a = refl
for_each-items handler f ((k, none) ∷ rest) p a =
    rw (p.on_absent k, for_each-items handler f rest p a)
for_each-items handler f ((k, some d) ∷ rest) p a = elim (Option-cases (f k d)) [
  | inl e ↦ rw (p.on_none k d a.0 e, for_each-items handler f rest p a.1, e)
  | inr (w, e) ↦ rw (p.on_some k d w a.0 e, for_each-items handler f rest p a.1, e)
]

-- `MergeWith` of a row that has a cell: the key of the other row is left out.
abbrev pub joined : RowData → RowData → RowData
joined a b = record { values = a.values ++ drop 1 b.values }

abbrev pub both : Option RowData → RowData → Option RowData
both none d = none
both (some other) d = some (joined d other)

abbrev pub only_left : ℕ → Option RowData → RowData → Option RowData
only_left k none d = some (joined d (empty_row k 2))
only_left k (some other) d = none

abbrev pub only_right : ℕ → Option RowData → RowData → Option RowData
only_right k none d = some (joined (empty_row k 2) d)
only_right k (some other) d = none

push_both-Pushes : (tx : ℕ) (t : Table) → Pushes (push_both tx t) (λ k d. both (get_row tx k t) d)
unfolding push_both merge_with
push_both-Pushes tx t = record {
  on_absent = λ k. refl;
  on_none = λ k d h e. ground arith;
  on_some = λ k d w h e. ground arith;
}

push_left-Pushes :
    (tx : ℕ) (t : Table) → Pushes (push_left tx t) (λ k d. only_left k (get_row tx k t) d)
unfolding push_left merge_with
push_left-Pushes tx t = record {
  on_absent = λ k. refl;
  on_none = λ k d h e. ground arith;
  on_some = λ k d w h e. ground arith;
}

push_right-Pushes :
    (tx : ℕ) (t : Table) → Pushes (push_right tx t) (λ k d. only_right k (get_row tx k t) d)
unfolding push_right merge_with empty_row
push_right-Pushes tx t = record {
  on_absent = λ k. refl;
  on_none = λ k d h e. ground arith;
  on_some = λ k d w h e. ground arith;
}

-- The rows that a handler pushes over a table: one under each key for which `f` gives one.
module _ (tx : ℕ) (t : Table) (handler : Handler) (f : ℕ → RowData → Option RowData)
    (p : Pushes handler f) (x : ℕ) (s : IsStored x t) where
  handled : OrdMap RowData
  handled = choose f (present (iterate tx t))

  handled-Ascending : Ascending handled
  unfolding handled iterate
  handled-Ascending =
      choose-Ascending f (present (iterate tx t)) (present-Ascending tx t.rows s.table.ascending)

  find-handled : (j : ℕ) → find j handled ≡ chosen f j (get_row tx j t)
  unfolding handled iterate
  find-handled j =
      find-choose j f (present (iterate tx t)) (present-Ascending tx t.rows s.table.ascending)
      ∙ ap (chosen f j) (find-present tx j t.rows s.table.ascending)

  for_each-handled : for_each handler (iterate tx t) ≡ ok (items_of handled)
  unfolding handled iterate
  for_each-handled = for_each-items handler f (iterate tx t) p (
      AllValues-find Filled (present (iterate tx t)) (present-Ascending tx t.rows s.table.ascending)
        λ k v e. s.filled tx k v (sym (find-present tx k t.rows s.table.ascending) ∙ e))

-- SELECT of a table that exists and is valid pushes exactly the rows that its transaction reads,
-- once each and in ascending order of the keys, and then the success status.
pub do_select-rows :
    (name : Str) (db : Database) (t : Table) (x : ℕ)
    → AllStored x db.tables
    → find_table name db.tables ≡ some t
    → (m : OrdMap RowData) × Ascending m
      × ((j : ℕ) → find j m ≡ read (next_tx db) db.tables name j)
      × (do_select name db ≡ succeed (record db { tx_counter = next_tx db }) (items_of m))
unfolding do_select read iterate
do_select-rows name db t x a e =
    let s = AllStored-find x name db.tables t a e in
    (
      present (iterate_rows (next_tx db) t.rows),
      present-Ascending (next_tx db) t.rows s.table.ascending,
      λ j. rw e (find-present (next_tx db) j t.rows s.table.ascending),
      rw (e, do_select, push_present-items),
    )

-- INTERSECT of two tables that exist and are valid pushes, in ascending order of the keys, the
-- joined rows of exactly the keys that its transaction reads in both tables, and then the success
-- status.
pub do_intersection-rows :
    (name1 name2 : Str) (db : Database) (t1 t2 : Table) (x : ℕ)
    → AllStored x db.tables
    → find_table name1 db.tables ≡ some t1
    → find_table name2 db.tables ≡ some t2
    → (m : OrdMap RowData) × Ascending m
      × ((j : ℕ)
          → find j m
            ≡ chosen
                (λ k d. both (read (next_tx db) db.tables name2 k) d)
                j
                (read (next_tx db) db.tables name1 j))
      × (do_intersection name1 name2 db
          ≡ succeed (record db { tx_counter = next_tx db }) (items_of m))
unfolding do_intersection read
do_intersection-rows name1 name2 db t1 t2 x a e1 e2 =
    let tx = next_tx db in
    let s1 = AllStored-find x name1 db.tables t1 a e1 in
    let f = λ (k : ℕ) (d : RowData). both (get_row tx k t2) d in
    let p = push_both-Pushes tx t2 in
    (
      handled tx t1 (push_both tx t2) f p x s1,
      handled-Ascending tx t1 (push_both tx t2) f p x s1,
      λ j. rw (e1, e2) (find-handled tx t1 (push_both tx t2) f p x s1 j),
      ground (arith, e1, e2, for_each-handled tx t1 (push_both tx t2) f p x s1),
    )

-- DIFFERENCE of two tables that exist and are valid pushes the rows of exactly the keys that its
-- transaction reads in the first table only, then those of the second table only, each in ascending
-- order of the keys and joined with an empty row, and then the success status.
pub do_difference-rows :
    (name1 name2 : Str) (db : Database) (t1 t2 : Table) (x : ℕ)
    → AllStored x db.tables
    → find_table name1 db.tables ≡ some t1
    → find_table name2 db.tables ≡ some t2
    → (left : OrdMap RowData) × (right : OrdMap RowData) × Ascending left
      × Ascending right
      × ((j : ℕ)
          → find j left
            ≡ chosen
                (λ k d. only_left k (read (next_tx db) db.tables name2 k) d)
                j
                (read (next_tx db) db.tables name1 j))
      × ((j : ℕ)
          → find j right
            ≡ chosen
                (λ k d. only_right k (read (next_tx db) db.tables name1 k) d)
                j
                (read (next_tx db) db.tables name2 j))
      × (do_difference name1 name2 db
          ≡ succeed (record db { tx_counter = next_tx db }) (items_of left ++ items_of right))
unfolding do_difference read
do_difference-rows name1 name2 db t1 t2 x a e1 e2 =
    let tx = next_tx db in
    let s1 = AllStored-find x name1 db.tables t1 a e1 in
    let s2 = AllStored-find x name2 db.tables t2 a e2 in
    let f = λ (k : ℕ) (d : RowData). only_left k (get_row tx k t2) d in
    let g = λ (k : ℕ) (d : RowData). only_right k (get_row tx k t1) d in
    let p = push_left-Pushes tx t2 in
    let q = push_right-Pushes tx t1 in
    (
      handled tx t1 (push_left tx t2) f p x s1,
      handled tx t2 (push_right tx t1) g q x s2,
      handled-Ascending tx t1 (push_left tx t2) f p x s1,
      handled-Ascending tx t2 (push_right tx t1) g q x s2,
      λ j. rw (e1, e2) (find-handled tx t1 (push_left tx t2) f p x s1 j),
      λ j. rw (e1, e2) (find-handled tx t2 (push_right tx t1) g q x s2 j),
      ground (
        arith,
        e1,
        e2,
        for_each-handled tx t1 (push_left tx t2) f p x s1,
        for_each-handled tx t2 (push_right tx t1) g q x s2,
      ),
    )
