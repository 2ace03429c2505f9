-- ===== src/JoinServer/Session.antt =====
-- A session of the server: 11_join_server/server.cpp (`TSession`), and the writing of rows and
-- statuses into its buffer (`TRowData::Dump` of table.cpp, `TStatus::Dump` of status.hpp).
-- The socket is not modelled: a request is the bytes read, an answer the list of the texts written.
pub mod Answers
pub mod Overrun
use cpp.Prelude.{
  ℕ, suc, ◌+◌, ◌≡◌, Bool, true, false, Option, none, some, List, [], ◌∷◌, ◌++◌, ltb, if◌then◌else◌,
  length, set, take, Str, bytes,
}
use cpp.Prelude.Decimal.{to_string}
use cpp.Prelude.Result.{Result, ok, throw, runtime_error, out_of_range, undefined_behaviour, ◌>>=◌}
use cpp.JoinServer.Value.{Value, RowData, int, text, null}
use cpp.JoinServer.Command.{Status, Command}
use cpp.JoinServer.Parser.{ParseResult, handle}
use cpp.JoinServer.Database.{Item, row, status, Database, handle_command}

-- `buffer.at(offset) = c; offset++` for each byte.
unfoldable pub overwrite : Str → ℕ → Str → Str
overwrite buffer offset [] = buffer
overwrite buffer offset (c ∷ added) = overwrite (set buffer offset c) (offset + 1) added

unfoldable pub shown : Value → Str
unfolding to_string
shown (int v) = to_string v
shown (text s) = s
shown null = []

-- ',' between two cells, and a newline behind the last.
abbrev pub separator : List Value → ℕ
separator [] = 10
separator (v ∷ rest) = 44

-- `TRowData::Dump` from the current cell on: the buffer and the offset.
unfoldable pub dump_cells : Str → ℕ → List Value → Result (Str × ℕ)
unfolding overwrite shown
dump_cells buffer offset [] = ok (buffer, offset)
dump_cells buffer offset (v ∷ rest) =
    let added = shown v in
    let written = overwrite buffer offset added in
    let end = offset + length added in
    let more = dump_cells (set written end (separator rest)) (end + 1) rest in
    if ltb (length buffer) end
    then throw runtime_error
    else if ltb end (length written)
    then more
    else throw out_of_range

unfoldable pub dump : RowData → Str → Result (Str × ℕ)
unfolding dump_cells
dump row_data buffer = dump_cells buffer 0 row_data.values

-- `copy(buffer.data(), n)` does not look at the size of the buffer.
unfoldable pub copy : Str → Str → Result (Str × ℕ)
unfolding overwrite
copy message buffer =
    if ltb (length buffer) (length message)
    then throw undefined_behaviour
    else ok (overwrite buffer 0 message, length message)

-- `TStatus::Dump`; an error always has a message.
unfoldable pub dump_status : Status → Str → Result (Str × ℕ)
unfolding copy
dump_status s buffer =
    if s.succeeded
    then copy (bytes "OK") buffer
    else elim s.message [ none ↦ throw undefined_behaviour | some message ↦ copy message buffer ]

-- `DoWriteQueueMessage`, for the items in the order of the queue. The status is the last item that
-- is popped; at an empty queue the session waits.
unfoldable pub write_queue : Str → List Item → Result (Str × List Str)
unfolding dump dump_status
write_queue buffer [] = ok (buffer, [])
write_queue buffer (row none ∷ rest) = throw undefined_behaviour
write_queue buffer (row (some d) ∷ rest) = do
  (buffer', n) ← dump d buffer
  (last, answers) ← write_queue buffer' rest
  ok (last, take n buffer' ∷ answers)
write_queue buffer (status s ∷ rest) = do
  (buffer', n) ← dump_status s buffer
  ok (buffer', take n buffer' ∷ [])

-- The handler of `DoRead` for one request.
unfoldable pub do_read : Str → Database → Str → Result (Database × List Str)
unfolding handle handle_command write_queue
do_read line db buffer = do
  result ← handle line
  elim result.command [
    | none ↦ do (buffer', n) ← dump_status result.status buffer; ok (db, take n buffer' ∷ [])
    | some c ↦ do
      (db', items) ← handle_command c db
      (buffer', answers) ← write_queue buffer items
      ok (db', answers)
  ]
