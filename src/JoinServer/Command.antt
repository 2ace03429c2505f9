-- ===== src/JoinServer/Command.antt =====
-- Commands and statuses: 11_join_server/commands.hpp and status.hpp.
use cpp.Prelude.{Bool, true, false, Option, none, some, Str}
use cpp.JoinServer.Value.{RowData}

pub record Status : Type 0 where
  pub succeeded : Bool
  pub message : Option Str

abbrev pub success : Status
success = record { succeeded = true; message = none }

abbrev pub error : Str → Status
error text = record { succeeded = false; message = some text }

-- `TCmd`: the alternatives of the variant, with the fields of their structs.
pub data Command : Type 0 where
  insert : Str → RowData → Command
  select : Str → Command
  truncate : Str → Command
  intersect : Str → Str → Command
  difference : Str → Str → Command
