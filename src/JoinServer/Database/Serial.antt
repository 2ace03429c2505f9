-- ===== src/JoinServer/Database/Serial.antt =====
-- Commands run one after another: nothing is thrown, and each transaction reads what the commands
-- before it have written.
use cpp.Prelude.{
  ℕ, suc, ◌≤◌, ◌<◌, ◌≡◌, refl, ◌&&◌, Option, none, some, List, [], ◌∷◌, ◌++◌, arith, ltb, ◌==◌,
  if◌then◌else◌, Str, str_eq, str_eq_iff, Option-cases, inl, inr,
}
use cpp.Prelude.Int.{ℤ, size_of_int, u64_mod}
use cpp.Prelude.Result.{Result, ok, throw}
use cpp.JoinServer.Value.{RowData, get_int}
use cpp.JoinServer.Command.{success, Command, insert, select, truncate, intersect, difference}
use cpp.JoinServer.Database.{
  Item, status, Tables, Database, Reply, find_table, update_table, next_tx, do_insert, do_select,
  do_truncate, do_intersection, do_difference, handle_command, no_such_table,
}
use cpp.JoinServer.Database.Outputs.{
  items_of, do_select-rows, do_intersection-rows, do_difference-rows,
}
use cpp.JoinServer.Database.Reads.{
  read, AllStored, AllStored-le, HasKey, IsUpdated, insert_row-IsUpdated, truncate-IsUpdated,
  make_table-IsUpdated, write_row,
}

-- What holds of the database between two commands.
pub record IsDatabase (db : Database) : Type 0 where
  pub stored : AllStored (suc db.tx_counter) db.tables

-- The abstract store: the row under each key of each table. A command changes it so.
abbrev pub View : Type 0
View = Str → ℕ → Option RowData

-- `size_t` of the first cell; 0 where there is none.
key_of : Result ℤ → ℕ
key_of (ok key) = size_of_int key
key_of (throw e) = 0

unfoldable pub apply : Command → View → View
unfolding key_of
apply (insert name row) view n j =
    if str_eq n name && (j == key_of (get_int row 0)) then some row else view n j
apply (truncate name) view n j = if str_eq n name then none else view n j
apply _ view n j = view n j

-- The row data of an INSERT begins with its key; the parser gives no other.
abbrev pub IsCommand : Command → Type 0
IsCommand (insert name row) = HasKey row
IsCommand _ = Unit

-- What a command makes of the database, for transactions before and after it.
pub record IsApplied (c : Command) (db db' : Database) : Type 0 where
  pub valid : IsDatabase db'
  pub counter : db'.tx_counter ≤ suc db.tx_counter
  pub monotone : db.tx_counter ≤ db'.tx_counter
  pub reads :
      (x : ℕ) (n : Str) (j : ℕ)
      → read x db'.tables n j
        ≡ (if ltb db.tx_counter x then apply c (read x db.tables) n j else read x db.tables n j)

pub next_tx-suc : (db : Database) → suc db.tx_counter < u64_mod → next_tx db ≡ suc db.tx_counter
unfolding next_tx
next_tx-suc db h = omega arith

Served : Command → Database → Reply → Type 0
Served c db reply =
    (db' : Database) × (items : List Item) × (reply ≡ ok (db', items)) × IsApplied c db db'

IsUpdated-IsApplied-insert :
    (name : Str) (row : RowData) (key : ℤ) (db : Database) (ts' : Tables)
    → get_int row 0 ≡ ok key
    → IsUpdated (suc db.tx_counter) name (write_row key row) db.tables ts'
    → IsApplied (insert name row) db (record { tables = ts'; tx_counter = suc db.tx_counter })
unfolding apply
IsUpdated-IsApplied-insert name row key db ts' k u = record {
  valid = record { stored = u.stored };
  counter = omega arith;
  monotone = omega arith;
  reads = λ x n j. ground (arith, u.reads x n j, k);
}

IsUpdated-IsApplied-truncate :
    (name : Str) (db : Database) (ts' : Tables)
    → IsUpdated (suc db.tx_counter) name (λ j old. none) db.tables ts'
    → IsApplied (truncate name) db (record { tables = ts'; tx_counter = suc db.tx_counter })
unfolding apply
IsUpdated-IsApplied-truncate name db ts' u = record {
  valid = record { stored = u.stored };
  counter = omega arith;
  monotone = omega arith;
  reads = λ x n j. ground (arith, u.reads x n j);
}

do_insert-Served :
    (name : Str) (row : RowData) (key : ℤ) (db : Database)
    → IsDatabase db
    → suc db.tx_counter < u64_mod
    → get_int row 0 ≡ ok key
    → Served (insert name row) db (do_insert name row db)
unfolding Served do_insert
do_insert-Served name row key db v h k = elim (Option-cases (find_table name db.tables)) [
  | inl e ↦
      let (t', f, u) =
        make_table-IsUpdated (suc db.tx_counter) name row key db.tables v.stored e k in
      (
        record { tables = (name, t') ∷ db.tables; tx_counter = suc db.tx_counter },
        status success ∷ [],
        ground (arith, next_tx-suc db h, e, f),
        IsUpdated-IsApplied-insert name row key db _ k u,
      )
  | inr (t, e) ↦
      let (t', f, u) =
        insert_row-IsUpdated (suc db.tx_counter) name row key db.tables t v.stored e k in
      (
        record { tables = update_table name t' db.tables; tx_counter = suc db.tx_counter },
        status success ∷ [],
        ground (arith, next_tx-suc db h, e, f),
        IsUpdated-IsApplied-insert name row key db _ k u,
      )
]

-- A command that writes nothing: its transaction may have got a number or not.
abbrev Reads : Command → Type 0
Reads c = (view : View) (n : Str) (j : ℕ) → apply c view n j ≡ view n j

Reads-IsApplied :
    (c : Command) (db : Database) (tx : ℕ)
    → Reads c
    → IsDatabase db
    → db.tx_counter ≤ tx
    → tx ≤ suc db.tx_counter
    → IsApplied c db (record db { tx_counter = tx })
Reads-IsApplied c db tx r v lo hi = record {
  valid = record {
    stored = AllStored-le (suc db.tx_counter) (suc tx) db.tables (omega arith) v.stored;
  };
  counter = hi;
  monotone = lo;
  reads = λ x n j. ground (arith, r (read x db.tables) n j);
}

do_truncate-Served :
    (name : Str) (db : Database)
    → IsDatabase db
    → suc db.tx_counter < u64_mod
    → Served (truncate name) db (do_truncate name db)
unfolding Served do_truncate apply read
do_truncate-Served name db v h = elim (Option-cases (find_table name db.tables)) [
  | inl e ↦ (
    db,
    status (no_such_table name) ∷ [],
    ground (arith, e),
    record {
      valid = v;
      counter = omega arith;
      monotone = omega arith;
      reads = λ x n j. ground (arith, e, str_eq_iff n name);
    },
  )
  | inr (t, e) ↦
      let (t', f, u) = truncate-IsUpdated (suc db.tx_counter) name db.tables t v.stored e in
      (
        record { tables = update_table name t' db.tables; tx_counter = suc db.tx_counter },
        status success ∷ [],
        ground (arith, next_tx-suc db h, e, f),
        IsUpdated-IsApplied-truncate name db _ u,
      )
]

do_select-Served :
    (name : Str) (db : Database)
    → IsDatabase db
    → suc db.tx_counter < u64_mod
    → Served (select name) db (do_select name db)
unfolding Served apply
do_select-Served name db v h = elim (Option-cases (find_table name db.tables)) [
  | inl e ↦ (
    db,
    status (no_such_table name) ∷ [],
    unfold do_select in ground (arith, e),
    Reads-IsApplied (select name) db db.tx_counter (λ view n j. refl) v (omega arith) (omega arith),
  )
  | inr (t, e) ↦
      let (m, a, r, f) = do_select-rows name db t (suc db.tx_counter) v.stored e in
      (
        record db { tx_counter = next_tx db },
        items_of m ++ status success ∷ [],
        f,
        Reads-IsApplied (select name) db (next_tx db) (λ view n j. refl) v
            (omega (arith, next_tx-suc db h)) (omega (arith, next_tx-suc db h)),
      )
]

do_intersection-Served :
    (name1 name2 : Str) (db : Database)
    → IsDatabase db
    → suc db.tx_counter < u64_mod
    → Served (intersect name1 name2) db (do_intersection name1 name2 db)
unfolding Served apply
do_intersection-Served name1 name2 db v h = elim (Option-cases (find_table name1 db.tables)) [
  | inl e ↦ (
    db,
    status (no_such_table name1) ∷ [],
    unfold do_intersection in ground (arith, e),
    Reads-IsApplied (intersect name1 name2) db db.tx_counter (λ view n j. refl) v (omega arith)
        (omega arith),
  )
  | inr (t1, e1) ↦ elim (Option-cases (find_table name2 db.tables)) [
    | inl e ↦ (
      db,
      status (no_such_table name2) ∷ [],
      unfold do_intersection in ground (arith, e1, e),
      Reads-IsApplied (intersect name1 name2) db db.tx_counter (λ view n j. refl) v (omega arith)
          (omega arith),
    )
    | inr (t2, e2) ↦
        let (m, a, r, f) =
          do_intersection-rows name1 name2 db t1 t2 (suc db.tx_counter) v.stored e1 e2 in
        (
          record db { tx_counter = next_tx db },
          items_of m ++ status success ∷ [],
          f,
          Reads-IsApplied (intersect name1 name2) db (next_tx db) (λ view n j. refl) v
              (omega (arith, next_tx-suc db h)) (omega (arith, next_tx-suc db h)),
        )
  ]
]

do_difference-Served :
    (name1 name2 : Str) (db : Database)
    → IsDatabase db
    → suc db.tx_counter < u64_mod
    → Served (difference name1 name2) db (do_difference name1 name2 db)
unfolding Served apply
do_difference-Served name1 name2 db v h = elim (Option-cases (find_table name1 db.tables)) [
  | inl e ↦ (
    db,
    status (no_such_table name1) ∷ [],
    unfold do_difference in ground (arith, e),
    Reads-IsApplied (difference name1 name2) db db.tx_counter (λ view n j. refl) v (omega arith)
        (omega arith),
  )
  | inr (t1, e1) ↦ elim (Option-cases (find_table name2 db.tables)) [
    | inl e ↦ (
      db,
      status (no_such_table name2) ∷ [],
      unfold do_difference in ground (arith, e1, e),
      Reads-IsApplied (difference name1 name2) db db.tx_counter (λ view n j. refl) v (omega arith)
          (omega arith),
    )
    | inr (t2, e2) ↦
        let (l, r, al, ar, rl, rr, f) =
          do_difference-rows name1 name2 db t1 t2 (suc db.tx_counter) v.stored e1 e2 in
        (
          record db { tx_counter = next_tx db },
          (items_of l ++ items_of r) ++ status success ∷ [],
          f,
          Reads-IsApplied (difference name1 name2) db (next_tx db) (λ view n j. refl) v
              (omega (arith, next_tx-suc db h)) (omega (arith, next_tx-suc db h)),
        )
  ]
]

-- From a valid database whose counter can still be incremented, a command whose inserted row begins
-- with a key returns without a throw and leaves a valid database; later transactions read what the
-- abstract command makes of the store, and transactions up to the counter read what they read
-- before.
pub handle_command-IsApplied :
    (c : Command) (db : Database)
    → IsDatabase db
    → suc db.tx_counter < u64_mod
    → IsCommand c
    → (db' : Database) × (items : List Item) × (handle_command c db ≡ ok (db', items))
      × IsApplied c db db'
unfolding handle_command Served
handle_command-IsApplied (insert name row) db v h (key, k) = do_insert-Served name row key db v h k
handle_command-IsApplied (select name) db v h k = do_select-Served name db v h
handle_command-IsApplied (truncate name) db v h k = do_truncate-Served name db v h
handle_command-IsApplied (intersect name1 name2) db v h k =
    do_intersection-Served name1 name2 db v h
handle_command-IsApplied (difference name1 name2) db v h k = do_difference-Served name1 name2 db v h
