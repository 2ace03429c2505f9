-- ===== src/JoinServer/Session/Overrun.antt =====
-- A request whose answer does not fit into the buffer of the session.
use cpp.Prelude.{
  ◌+◌, ◌≤◌, ◌<◌, ◌≡◌, refl, none, [], ◌∷◌, ◌++◌, arith, length, length-append, Str, bytes,
}
use cpp.Prelude.Result.{ok, throw, undefined_behaviour}
use cpp.JoinServer.Command.{truncate}
use cpp.JoinServer.Parser.{newline}
use cpp.JoinServer.Parser.RoundTrip.{IsWord, line_of, request, handle-request}
use cpp.JoinServer.Database.{
  Database, status, no_such_table, find_table, do_truncate, handle_command,
}
use cpp.JoinServer.Session.{copy, dump_status, write_queue, do_read}

no_such_table-overrun :
    (name buffer : Str)
    → length buffer < length name + 38
    → write_queue buffer (status (no_such_table name) ∷ []) ≡ throw undefined_behaviour
unfolding write_queue dump_status copy no_such_table
no_such_table-overrun name buffer h = ground (
  arith,
  length-append (bytes "ERR: table with name '") (name ++ bytes "' does not exist"),
  length-append name (bytes "' does not exist"),
)

request-length : (name : Str) → length (request (truncate name)) ≡ length name + 10
unfolding request line_of
request-length name = omega (
  arith,
  length-append (bytes "TRUNCATE") (32 ∷ (name ++ newline ∷ [])),
  length-append name (newline ∷ []),
)

missing-handle_command :
    (name : Str) (db : Database)
    → find_table name db.tables ≡ none
    → handle_command (truncate name) db ≡ ok (db, status (no_such_table name) ∷ [])
unfolding handle_command do_truncate
missing-handle_command name db f = ground (arith, f)

-- With the buffer of 1024 bytes, the request to truncate a table that is missing, whose name is a word of
-- 987 to 1014 bytes, fits into the buffer, is parsed and given to the database, and the message of the
-- answer is copied past the end of the buffer.
pub do_read-overrun :
    (name buffer : Str) (db : Database)
    → length buffer ≡ 1024
    → IsWord name
    → 987 ≤ length name
    → length name ≤ 1014
    → find_table name db.tables ≡ none
    → (length (request (truncate name)) ≤ length buffer)
      × (do_read (request (truncate name)) db buffer ≡ throw undefined_behaviour)
unfolding do_read
do_read-overrun name buffer db b w l m f = (
  omega (arith, request-length name, b, m),
  rw (handle-request (truncate name) w, missing-handle_command name db f)
      (rw (no_such_table-overrun name buffer (omega (arith, b, l))) refl),
)
