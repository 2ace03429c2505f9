-- ===== src/BulkServer/Controller.antt =====
-- The connections: 10_bulk_server/async.cpp (`TParserController`) and bulk/parser.cpp (`TParser`).
-- Each call is one atomic step; the calls of all connections are a list of requests.
pub mod Conservation
pub mod Counting
pub mod Serving
use cpp.Prelude.{
  ℕ, ◌+◌, ◌%◌, Bool, Option, none, some, List, [], ◌∷◌, ◌++◌, ◌==◌, if◌then◌else◌, Str, bytes,
  str_eq,
}
use cpp.Prelude.Int.{u64_mod}
use cpp.Prelude.OrdMap.{OrdMap, find, assign}
use cpp.Prelude.Result.{Result, ok, throw, invalid_argument, undefined_behaviour, ◌>>=◌}
use cpp.Bulk.State.{Command, Event, command, block_start, block_end, end_of_file, Block}
use cpp.BulkServer.Accumulator.{Handles}
use cpp.BulkServer.State.{State, normal, handle_event}

-- `TParser`
pub record Parser : Type 0 where
  pub block_size : ℕ
  pub state : State

-- `TParserController`: the shared buffer of the accumulator factory, and the parsers by their ids.
pub record Controller : Type 0 where
  pub shared : List Command
  pub parsers : OrdMap Parser
  pub parser_counter : ℕ

-- `GetInstance`
abbrev pub instance_made : Controller
instance_made = record { shared = []; parsers = []; parser_counter = 0 }

-- The event of `TParser::HandleLine`; an empty line is refused.
unfoldable pub event_of : ℕ → Str → Result Event
unfolding str_eq
event_of now [] = throw invalid_argument
event_of now (c ∷ line) =
    if str_eq (c ∷ line) (bytes "{")
    then ok block_start
    else if str_eq (c ∷ line) (bytes "}")
    then ok block_end
    else ok (command (record { value = c ∷ line; registration_time = now }))

-- `Parsers.erase`
unfoldable pub erase : ℕ → OrdMap Parser → OrdMap Parser
erase id [] = []
erase id ((j, p) ∷ m) = let rest = erase id m in if id == j then m else (j, p) ∷ rest

-- The parser behind the pointer of `id` is changed; no other entry is.
unfoldable pub replace : ℕ → Parser → OrdMap Parser → OrdMap Parser
replace id p [] = []
replace id p ((j, q) ∷ m) =
    let rest = replace id p m in if id == j then (j, p) ∷ m else (j, q) ∷ rest

-- `MakeParser`
unfoldable pub make_parser : ℕ → Controller → ℕ × Controller
make_parser block_size c = (
  c.parser_counter,
  record c {
    parsers =
        assign c.parser_counter (record { block_size = block_size; state = normal }) c.parsers;
    parser_counter = (c.parser_counter + 1) % u64_mod;
  },
)

-- An event of the parser `id`; `Parsers[id]` of an id that is not there is a null pointer.
unfoldable pub handle_parser_event :
    Handles → ℕ → Event → Controller → Result (Controller × List Block)
unfolding handle_event replace
handle_parser_event handles id e c = elim (find id c.parsers) [
  | none ↦ throw undefined_behaviour
  | some p ↦ do
    (s, shared, blocks) ← handle_event handles p.block_size e p.state c.shared
    ok (
      record c { shared = shared; parsers = replace id (record p { state = s }) c.parsers },
      blocks,
    )
]

-- `HandleLine`
unfoldable pub handle_line : Handles → ℕ → ℕ → Str → Controller → Result (Controller × List Block)
unfolding event_of handle_parser_event
handle_line handles id now line c = do e ← event_of now line; handle_parser_event handles id e c

-- `RemoveParser`: the parser is terminated and erased; an id that is not there is left.
unfoldable pub remove_parser : Handles → ℕ → Controller → Result (Controller × List Block)
unfolding handle_event erase
remove_parser handles id c = elim (find id c.parsers) [
  | none ↦ ok (c, [])
  | some p ↦ do
    (s, shared, blocks) ← handle_event handles p.block_size end_of_file p.state c.shared
    ok (record c { shared = shared; parsers = erase id c.parsers }, blocks)
]

-- The calls of `async`: `connect`, `receive` and `disconnect`.
pub data Request : Type 0 where
  connect : ℕ → Request
  receive : ℕ → ℕ → Str → Request
  disconnect : ℕ → Request

unfoldable pub handle_request : Handles → Request → Controller → Result (Controller × List Block)
unfolding make_parser handle_line remove_parser
handle_request handles (connect block_size) c = ok ((make_parser block_size c).1, [])
handle_request handles (receive id now line) c = handle_line handles id now line c
handle_request handles (disconnect id) c = remove_parser handles id c

unfoldable pub serve : Handles → List Request → Controller → Result (Controller × List Block)
unfolding handle_request
serve handles [] c = ok (c, [])
serve handles (r ∷ rest) c = do
  (c', blocks) ← handle_request handles r c
  (last, more) ← serve handles rest c'
  ok (last, blocks ++ more)
