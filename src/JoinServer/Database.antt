-- ===== src/JoinServer/Database.antt =====
-- The database: 11_join_server/database.hpp and database.cpp (`TDatabase`).
-- A command is the task that a pool thread runs. It is one atomic step here, and its result is the
-- list of the items that it pushes into the queue. A task that throws ends the process.
pub mod Reads
pub mod Serial
pub mod History
pub mod Outputs
use cpp.Prelude.{
  ℕ, ◌+◌, ◌%◌, Bool, Option, none, some, List, [], ◌∷◌, ◌++◌, if◌then◌else◌, Str, str_eq, bytes,
}
use cpp.Prelude.Int.{u64_mod}
use cpp.Prelude.Result.{Result, ok, throw, ◌>>=◌}
use cpp.JoinServer.Value.{RowData, empty_row, merge_with}
use cpp.JoinServer.Table
use cpp.JoinServer.Table.{Table, make_table, insert_row, get_row, iterate}
use cpp.JoinServer.Command.{
  Status, success, error, Command, insert, select, truncate, intersect, difference,
}

-- `TResult`, an item of the result queue
pub data Item : Type 0 where
  row : Option RowData → Item
  status : Status → Item

abbrev pub Tables : Type 0
Tables = List (Str × Table)

pub record Database : Type 0 where
  pub tables : Tables
  pub tx_counter : ℕ

-- `Create`
abbrev pub create : Database
create = record { tables = []; tx_counter = 0 }

unfoldable pub find_table : Str → Tables → Option Table
unfolding str_eq
find_table name [] = none
find_table name ((other, t) ∷ rest) = if str_eq name other then some t else find_table name rest

-- The table behind the pointer of `name` is changed; no other entry is.
unfoldable pub update_table : Str → Table → Tables → Tables
unfolding str_eq
update_table name t [] = []
update_table name t ((other, u) ∷ rest) =
    let rest' = update_table name t rest in
    if str_eq name other then (other, t) ∷ rest else (other, u) ∷ rest'

-- `++TxCounter_`
unfoldable pub next_tx : Database → ℕ
next_tx db = (db.tx_counter + 1) % u64_mod

unfoldable pub no_such_table : Str → Status
no_such_table name = error (bytes "ERR: table with name '" ++ (name ++ bytes "' does not exist"))

abbrev pub Reply : Type 0
Reply = Result (Database × List Item)

abbrev pub succeed : Database → List Item → Reply
succeed db items = ok (db, items ++ status success ∷ [])

abbrev fail : Database → Status → Reply
fail db s = ok (db, status s ∷ [])

insert_into : Str → RowData → Table → Database → Reply
insert_into name row_data t db = do
  t' ← insert_row (next_tx db) row_data t
  succeed (record { tables = update_table name t' db.tables; tx_counter = next_tx db }) []

-- The first section of `Insert`, under the shared lock: `none` when there is no such table.
unfoldable pub insert_shared : Str → RowData → Database → Option Reply
unfolding insert_into
insert_shared name row_data db = elim (find_table name db.tables) [
  | none ↦ none
  | some t ↦ some (insert_into name row_data t db)
]

-- The second section, under the exclusive lock: the table is looked up again, or made.
unfoldable pub insert_exclusive : Str → RowData → Database → Reply
unfolding insert_into
insert_exclusive name row_data db = elim (find_table name db.tables) [
  | some t ↦ insert_into name row_data t db
  | none ↦ do
    t' ← insert_row (next_tx db) row_data make_table
    succeed (record { tables = (name, t') ∷ db.tables; tx_counter = next_tx db }) []
]

unfoldable pub do_insert : Str → RowData → Database → Reply
unfolding insert_shared insert_exclusive
do_insert name row_data db = elim (insert_shared name row_data db) [
  | none ↦ insert_exclusive name row_data db
  | some reply ↦ reply
]

-- The handler of `Select`: a row that is present is pushed.
unfoldable pub push_present : List (ℕ × Option RowData) → List Item
push_present [] = []
push_present ((k, none) ∷ rest) = push_present rest
push_present ((k, some row_data) ∷ rest) = row (some row_data) ∷ push_present rest

unfoldable pub do_select : Str → Database → Reply
unfolding push_present
do_select name db = elim (find_table name db.tables) [
  | none ↦ fail db (no_such_table name)
  | some t ↦ succeed (record db { tx_counter = next_tx db }) (push_present (iterate (next_tx db) t))
]

unfoldable pub do_truncate : Str → Database → Reply
do_truncate name db = elim (find_table name db.tables) [
  | none ↦ fail db (no_such_table name)
  | some t ↦ do
    t' ← Table.truncate (next_tx db) t
    succeed (record { tables = update_table name t' db.tables; tx_counter = next_tx db }) []
]

-- One call of a handler: what it pushes.
abbrev Handler : Type 0
Handler = ℕ → Option RowData → Result (List Item)

-- The handler of `Intersection`.
push_both : ℕ → Table → Handler
push_both tx other k none = ok []
push_both tx other k (some row_data) = elim (get_row tx k other) [
  | none ↦ ok []
  | some other_data ↦ do merged ← merge_with row_data other_data; ok (row (some merged) ∷ [])
]

-- The two handlers of `Difference`: rows of the first table only, rows of the second table only.
push_left : ℕ → Table → Handler
push_left tx other k none = ok []
push_left tx other k (some row_data) = elim (get_row tx k other) [
  | some _ ↦ ok []
  | none ↦ do merged ← merge_with row_data (empty_row k 2); ok (row (some merged) ∷ [])
]

push_right : ℕ → Table → Handler
push_right tx other k none = ok []
push_right tx other k (some row_data) = elim (get_row tx k other) [
  | some _ ↦ ok []
  | none ↦ do merged ← merge_with (empty_row k 2) row_data; ok (row (some merged) ∷ [])
]

-- The calls of a handler, one after another, and all that they push.
unfoldable pub for_each : Handler → List (ℕ × Option RowData) → Result (List Item)
for_each handler [] = ok []
for_each handler ((k, row_data) ∷ rest) = do
  pushed ← handler k row_data
  more ← for_each handler rest
  ok (pushed ++ more)

-- `mustFindTable`, twice: the first table that is missing is reported.
abbrev with_tables : Str → Str → Database → (Table → Table → Reply) → Reply
with_tables name1 name2 db body = elim (find_table name1 db.tables) [
  | none ↦ fail db (no_such_table name1)
  | some t1 ↦ elim (find_table name2 db.tables) [
    | none ↦ fail db (no_such_table name2)
    | some t2 ↦ body t1 t2
  ]
]

unfoldable pub do_intersection : Str → Str → Database → Reply
unfolding for_each push_both
do_intersection name1 name2 db = with_tables name1 name2 db λ t1 t2. do
  items ← for_each (push_both (next_tx db) t2) (iterate (next_tx db) t1)
  succeed (record db { tx_counter = next_tx db }) items

unfoldable pub do_difference : Str → Str → Database → Reply
unfolding for_each push_left push_right
do_difference name1 name2 db = with_tables name1 name2 db λ t1 t2. do
  left ← for_each (push_left (next_tx db) t2) (iterate (next_tx db) t1)
  right ← for_each (push_right (next_tx db) t1) (iterate (next_tx db) t2)
  succeed (record db { tx_counter = next_tx db }) (left ++ right)

-- `HandleCommand`
unfoldable pub handle_command : Command → Database → Reply
unfolding do_insert do_select do_truncate do_intersection do_difference
handle_command (insert name row_data) db = do_insert name row_data db
handle_command (select name) db = do_select name db
handle_command (truncate name) db = do_truncate name db
handle_command (intersect name1 name2) db = do_intersection name1 name2 db
handle_command (difference name1 name2) db = do_difference name1 name2 db
