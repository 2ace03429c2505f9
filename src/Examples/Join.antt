-- ===== src/Examples/Join.antt =====
-- The join server on a small database: two tables, with the keys 0 and 1, and 1 and 2.
use cpp.Prelude.{
  ℕ, zero, suc, ◌+◌, ◌≤◌, ◌<◌, ◌≡◌, refl, none, some, List, [], ◌∷◌, ◌++◌, arith, Str, bytes, leb,
  if◌then◌else◌, length, replicate, take,
}
use cpp.Prelude.Int.{pos}
use cpp.Prelude.Decimal.{is_space}
use cpp.Prelude.OrdMap.{OrdMap, find, assign, chosen, Ascending}
use cpp.Prelude.Result.{ok, throw, assertion_failed, undefined_behaviour}
use cpp.JoinServer.Value.{RowData, int, text, get_int, merge_with}
use cpp.JoinServer.Row.{Row, get_version, find_version, add_version}
use cpp.JoinServer.Row.Snapshot.{IsWritten, add_version-IsWritten}
use cpp.JoinServer.Table
use cpp.JoinServer.Table.{make_table, insert_row, get_row, iterate, iterate_rows}
use cpp.JoinServer.Table.Reads.{IsTable, IsInserted, insert_row-IsInserted, truncate-reads}
use cpp.JoinServer.Table.Order.{insert_row-out_of_order}
use cpp.JoinServer.Command.{Command, insert, select, truncate, success}
use cpp.JoinServer.Database.{
  Item, row, Database, create, status, succeed, find_table, next_tx, do_select, do_intersection,
  do_difference, handle_command,
}
use cpp.JoinServer.Database.Reads.{read, AllStored}
use cpp.JoinServer.Database.Outputs.{
  items_of, both, only_left, only_right, do_select-rows, do_intersection-rows, do_difference-rows,
}
use cpp.JoinServer.Database.Serial.{IsDatabase, IsApplied, handle_command-IsApplied}
use cpp.JoinServer.Database.History.{serve, apply_all, create-IsDatabase, serve-apply_all}
use cpp.JoinServer.Parser.{accepted, handle}
use cpp.JoinServer.Parser.Replies.{IsAnswer, handle-IsAnswer}
use cpp.JoinServer.Parser.RoundTrip.{NoSpaces, request, handle-request}
use cpp.JoinServer.Session.{do_read, write_queue, shown, dump}
use cpp.JoinServer.Session.Overrun.{do_read-overrun}
use cpp.JoinServer.Session.Answers.{line, lines_of, dump-line, write_queue-lines}

abbrev row_0 : RowData
row_0 = record { values = int (pos 0) ∷ text (bytes "lean") ∷ [] }

abbrev row_1 : RowData
row_1 = record { values = int (pos 1) ∷ text (bytes "sweater") ∷ [] }

abbrev row_1' : RowData
row_1' = record { values = int (pos 1) ∷ text (bytes "flour") ∷ [] }

abbrev row_2 : RowData
row_2 = record { values = int (pos 2) ∷ text (bytes "wonder") ∷ [] }

abbrev script : List Command
script =
    insert (bytes "A") row_0
    ∷ insert (bytes "A") row_1
    ∷ insert (bytes "B") row_1'
    ∷ insert (bytes "B") row_2
    ∷ []

serve-apply_all_example :
    (db : Database) × (serve create script ≡ ok db)
    × IsDatabase db
    × ((x : ℕ) → 0 + 4 < x → read x db.tables ≡ apply_all script (read x create.tables))
unfolding get_int
serve-apply_all_example =
    serve-apply_all script create create-IsDatabase (omega arith)
      ((pos 0, refl), ((pos 1, refl), ((pos 1, refl), ((pos 2, refl), tt))))

handle_command-IsApplied_example :
    (db : Database) × (items : List Item) × (handle_command (insert (bytes "A") row_0) create
      ≡ ok (db, items))
    × IsApplied (insert (bytes "A") row_0) create db
unfolding get_int
handle_command-IsApplied_example =
    handle_command-IsApplied (insert (bytes "A") row_0) create create-IsDatabase (omega arith)
      (pos 0, refl)

abbrev one_version : ℕ → RowData → Row
one_version tx content = record { versions = record { tx_id = tx; row_data = some content } ∷ [] }

abbrev table_a : Table.Table
table_a = record { rows = (0, one_version 1 row_0) ∷ (1, one_version 2 row_1) ∷ [] }

abbrev table_b : Table.Table
table_b = record { rows = (1, one_version 3 row_1') ∷ (2, one_version 4 row_2) ∷ [] }

abbrev two_tables : Database
two_tables = record { tables = (bytes "A", table_a) ∷ (bytes "B", table_b) ∷ []; tx_counter = 4 }

two_tables_stored : AllStored 5 two_tables.tables
unfolding get_row find get_version find_version
two_tables_stored = (
  record {
    table = record { ascending = omega arith; before = omega arith };
    filled = λ x j content e. ground arith;
  },
  (
    record {
      table = record { ascending = omega arith; before = omega arith };
      filled = λ x j content e. ground arith;
    },
    tt,
  ),
)

do_select-rows_example :
    (m : OrdMap RowData) × Ascending m
    × ((j : ℕ) → find j m ≡ read (next_tx two_tables) two_tables.tables (bytes "A") j)
    × (do_select (bytes "A") two_tables
        ≡ succeed (record two_tables { tx_counter = next_tx two_tables }) (items_of m))
unfolding find_table
do_select-rows_example = do_select-rows (bytes "A") two_tables table_a 5 two_tables_stored refl

do_intersection-rows_example :
    (m : OrdMap RowData) × Ascending m
    × ((j : ℕ)
        → find j m
          ≡ chosen
              (λ k d. both (read (next_tx two_tables) two_tables.tables (bytes "B") k) d)
              j
              (read (next_tx two_tables) two_tables.tables (bytes "A") j))
    × (do_intersection (bytes "A") (bytes "B") two_tables
        ≡ succeed (record two_tables { tx_counter = next_tx two_tables }) (items_of m))
unfolding find_table
do_intersection-rows_example =
    do_intersection-rows (bytes "A") (bytes "B") two_tables table_a table_b 5 two_tables_stored refl
      refl

do_difference-rows_example :
    (left : OrdMap RowData) × (right : OrdMap RowData) × Ascending left
    × Ascending right
    × ((j : ℕ)
        → find j left
          ≡ chosen
              (λ k d. only_left k (read (next_tx two_tables) two_tables.tables (bytes "B") k) d)
              j
              (read (next_tx two_tables) two_tables.tables (bytes "A") j))
    × ((j : ℕ)
        → find j right
          ≡ chosen
              (λ k d. only_right k (read (next_tx two_tables) two_tables.tables (bytes "A") k) d)
              j
              (read (next_tx two_tables) two_tables.tables (bytes "B") j))
    × (do_difference (bytes "A") (bytes "B") two_tables
        ≡ succeed
            (record two_tables { tx_counter = next_tx two_tables })
            (items_of left ++ items_of right))
unfolding find_table
do_difference-rows_example =
    do_difference-rows (bytes "A") (bytes "B") two_tables table_a table_b 5 two_tables_stored refl
      refl

-- The join of the two tables is the row under the key 1.
intersection_runs :
    do_intersection (bytes "A") (bytes "B") two_tables
    ≡ succeed
        (record two_tables { tx_counter = 5 })
        (row (
            some (record {
              values = int (pos 1) ∷ text (bytes "sweater") ∷ text (bytes "flour") ∷ [];
            }))
          ∷ [])
unfolding do_intersection find_table iterate iterate_rows get_row find get_version find_version
    merge_with next_tx
intersection_runs = refl

insert_row-IsInserted_example :
    (t : Table.Table) × (insert_row 1 row_0 make_table ≡ ok t) × IsInserted 1 0 row_0 make_table t
unfolding get_int
insert_row-IsInserted_example =
    insert_row-IsInserted 1 row_0 (pos 0) make_table (record { ascending = tt; before = tt }) refl

truncate-reads_example :
    (t : Table.Table) × (Table.truncate 5 table_a ≡ ok t)
    × IsTable 6 t
    × ((x j : ℕ) → get_row x j t ≡ (if leb 5 x then none else get_row x j table_a))
truncate-reads_example =
    truncate-reads 5 table_a (record { ascending = omega arith; before = omega arith })

add_version-IsWritten_example :
    (r : Row) × (add_version 4 (some row_0) (one_version 3 row_0) ≡ ok r)
    × IsWritten 4 (some row_0) (one_version 3 row_0) r
unfolding get_int
add_version-IsWritten_example =
    add_version-IsWritten 4 (some row_0) (one_version 3 row_0) (omega arith) (pos 0, refl)

insert_row-out_of_order_example :
    insert_row 1 row_1 (record { rows = (1, one_version 2 row_1') ∷ [] }) ≡ throw assertion_failed
unfolding get_int insert_row add_version find assign
insert_row-out_of_order_example =
    insert_row-out_of_order 1 2 row_1 row_1' (pos 1) make_table
      (record { rows = (1, one_version 2 row_1') ∷ [] }) (omega arith) refl refl refl

handle-request_example :
    handle (request (insert (bytes "A") row_0)) ≡ ok (accepted (insert (bytes "A") row_0))
unfolding is_space
handle-request_example =
    handle-request (insert (bytes "A") row_0)
      ((refl, tt), (pos 0, bytes "lean", omega arith, (refl, (refl, (refl, (refl, tt)))), refl))

handle-IsAnswer_example : IsAnswer (accepted (select (bytes "A")))
unfolding handle is_space
handle-IsAnswer_example =
    handle-IsAnswer (bytes "SELECT A" ++ 10 ∷ []) (accepted (select (bytes "A"))) refl

dump-line_example :
    (written : Str) × (dump row_0 (replicate 16 0) ≡ ok (written, length (line row_0.values)))
    × (length written ≡ 16)
    × (take (length (line row_0.values)) written ≡ line row_0.values)
unfolding line shown
dump-line_example = dump-line row_0 (replicate 16 0) (omega arith)

write_queue-lines_example :
    (last : Str) × (write_queue (replicate 16 0) (items_of ((0, row_0) ∷ []) ++ status success ∷ [])
      ≡ ok (last, lines_of ((0, row_0) ∷ []) ++ bytes "OK" ∷ []))
unfolding line shown
write_queue-lines_example =
    write_queue-lines (replicate 16 0) ((0, row_0) ∷ []) (omega arith) (omega arith)

abbrev session_buffer : Str
session_buffer = replicate 1024 0

abbrev long_name : Str
long_name = replicate 1000 97

replicate-NoSpaces : (n : ℕ) → NoSpaces (replicate n 97)
unfolding is_space
replicate-NoSpaces zero = tt
replicate-NoSpaces (suc n) = (refl, replicate-NoSpaces n)

do_read-overrun_example :
    (length (request (truncate long_name)) ≤ length session_buffer)
    × (do_read (request (truncate long_name)) create session_buffer ≡ throw undefined_behaviour)
do_read-overrun_example =
    do_read-overrun long_name session_buffer create refl (replicate-NoSpaces 1000) (omega arith)
      (omega arith) (unfold find_table in refl)
