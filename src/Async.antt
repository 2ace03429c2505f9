-- ===== src/Async.antt =====
-- The asynchronous grouper: 09_async. The events, the states and the parser of a connection are those
-- of Bulk, since bulk/event.hpp, state.hpp and parser.hpp declare the same types. A handler leaves its
-- state and throws when the printer fails, so an outcome has the state, the blocks and the exception.
pub mod Alone
pub mod Isolation
pub mod Runs
use cpp.Prelude.{
  ℕ, ◌+◌, ◌%◌, Bool, Option, none, some, List, [], ◌∷◌, ◌++◌, ◌==◌, if◌then◌else◌, length, Str,
}
use cpp.Prelude.Int.{u64_mod}
use cpp.Prelude.OrdMap.{OrdMap, find, assign}
use cpp.Prelude.Result.{
  Exception, invalid_argument, runtime_error, Result, ok, throw, undefined_behaviour, ◌>>=◌,
}
use cpp.Bulk.State.{
  Command, Event, command, block_start, block_end, end_of_file, State, normal, dynamic, Block,
  stamped, increment, decrement,
}
use cpp.Bulk.Parser.{Parser, make_parser, event_of}

-- `Printer->HandleBlock(...).get().Ok`
abbrev pub Handles : Type 0
Handles = Block → Bool

-- The blocks that were printed, and what was thrown.
pub record Reply : Type 0 where
  pub printed : List Block
  pub thrown : Option Exception

abbrev pub replied : List Block → Reply
replied blocks = record { printed = blocks; thrown = none }

abbrev pub failed : Exception → Reply
failed x = record { printed = []; thrown = some x }

-- What a handler leaves.
abbrev pub Outcome : Type 0
Outcome = State × Reply

-- A block is moved to the printer; an error of the printer is thrown.
unfoldable pub hand_over : Handles → Block → Reply
hand_over handles b = if handles b then replied (b ∷ []) else failed runtime_error

-- `if (Accumulator.size())`
unfoldable pub hand_over_any : Handles → Block → Reply
unfolding hand_over
hand_over_any handles [] = replied []
hand_over_any handles (c ∷ commands) = hand_over handles (c ∷ commands)

-- The state is switched unless something was thrown; what was printed is not taken back.
abbrev pub switch : State → State → Reply → Outcome
switch next kept r = (elim r.thrown [ none ↦ next | some x ↦ kept ], r)

-- `TNormalBlock::HandleEvent`
unfoldable pub handle_normal : Handles → ℕ → ℕ → Event → List Command → Outcome
unfolding hand_over hand_over_any
handle_normal handles block_size now (command c) commands =
    let commands' = commands ++ stamped now c ∷ [] in
    if length commands' == block_size
    then switch (normal []) (normal []) (hand_over handles commands')
    else (normal commands', replied [])
handle_normal handles block_size now block_start commands =
    switch (dynamic 1 []) (normal []) (hand_over_any handles commands)
handle_normal handles block_size now block_end commands = (normal commands, failed invalid_argument)
handle_normal handles block_size now end_of_file commands =
    switch (normal []) (normal []) (hand_over_any handles commands)

-- `TDynamicBlock::HandleEvent`
unfoldable pub handle_dynamic : Handles → ℕ → Event → ℕ → List Command → Outcome
unfolding hand_over
handle_dynamic handles now (command c) level commands =
    (dynamic level (commands ++ stamped now c ∷ []), replied [])
handle_dynamic handles now block_start level commands =
    (dynamic (increment level) commands, replied [])
handle_dynamic handles now block_end level commands =
    if decrement level == 0
    then switch (normal []) (dynamic 0 []) (hand_over handles commands)
    else (dynamic (decrement level) commands, replied [])
handle_dynamic handles now end_of_file level commands = (dynamic level commands, replied [])

-- The virtual call of `HandleEvent`.
unfoldable pub handle_event : Handles → ℕ → ℕ → Event → State → Outcome
unfolding handle_normal handle_dynamic
handle_event handles block_size now e (normal commands) =
    handle_normal handles block_size now e commands
handle_event handles block_size now e (dynamic level commands) =
    handle_dynamic handles now e level commands

-- An event of a parser.
unfoldable pub handle_parser_event : Handles → ℕ → Event → Parser → Parser × Reply
unfolding handle_event
handle_parser_event handles now e p =
    let (s, r) = handle_event handles p.block_size now e p.state in (record p { state = s }, r)

-- `TParser::HandleLine`
unfoldable pub handle_line : Handles → ℕ → Str → Parser → Parser × Reply
unfolding event_of handle_parser_event
handle_line handles now line p = elim (event_of now line) [
  | throw x ↦ (p, failed x)
  | ok e ↦ handle_parser_event handles now e p
]

-- `TParser::Terminate`
unfoldable pub terminate : Handles → ℕ → Parser → Parser × Reply
unfolding handle_parser_event
terminate handles now p = handle_parser_event handles now end_of_file p

-- `TParserController`: the parsers by their ids.
pub record Controller : Type 0 where
  pub storage : OrdMap Parser
  pub parser_counter : ℕ

-- `GetInstance`
abbrev pub instance_made : Controller
instance_made = record { storage = []; parser_counter = 0 }

-- `MakeParser`
unfoldable pub connect_parser : ℕ → Controller → ℕ × Controller
connect_parser block_size c = (
  c.parser_counter,
  record {
    storage = assign c.parser_counter (make_parser block_size) c.storage;
    parser_counter = (c.parser_counter + 1) % u64_mod;
  },
)

-- `Storage.erase`
unfoldable pub erase : ℕ → OrdMap Parser → OrdMap Parser
erase id [] = []
erase id ((j, p) ∷ m) = let rest = erase id m in if id == j then rest else (j, p) ∷ rest

-- `HandleLine`: `Storage[id]` of an id that is not there is a null pointer.
unfoldable pub receive_line : Handles → ℕ → ℕ → Str → Controller → Result (Controller × Reply)
unfolding handle_line
receive_line handles id now line c = elim (find id c.storage) [
  | none ↦ throw undefined_behaviour
  | some p ↦
      let (p', r) = handle_line handles now line p in
      ok (record c { storage = assign id p' c.storage }, r)
]

-- `RemoveParser`: an exception of `Terminate` leaves the parser in the storage.
unfoldable pub remove_parser : Handles → ℕ → ℕ → Controller → Controller × Reply
unfolding terminate erase
remove_parser handles id now c = elim (find id c.storage) [
  | none ↦ (c, replied [])
  | some p ↦
      let (p', r) = terminate handles now p in
      (
        record c {
          storage = elim r.thrown [ none ↦ erase id c.storage | some x ↦ assign id p' c.storage ];
        },
        r,
      )
]

-- The calls `connect`, `receive` and `disconnect`, the last two with the time of the call.
pub data Request : Type 0 where
  connect : ℕ → Request
  receive : ℕ → ℕ → Str → Request
  disconnect : ℕ → ℕ → Request

-- One call after another, with the replies to the connections.
unfoldable pub serve : Handles → List Request → Controller → Result (Controller × List (ℕ × Reply))
unfolding connect_parser receive_line remove_parser
serve handles [] c = ok (c, [])
serve handles (connect block_size ∷ rest) c = serve handles rest (connect_parser block_size c).1
serve handles (receive id now line ∷ rest) c = do
  (c', r) ← receive_line handles id now line c
  (last, replies) ← serve handles rest c'
  ok (last, (id, r) ∷ replies)
serve handles (disconnect id now ∷ rest) c = do
  (last, replies) ← serve handles rest (remove_parser handles id now c).0
  ok (last, (id, (remove_parser handles id now c).1) ∷ replies)
