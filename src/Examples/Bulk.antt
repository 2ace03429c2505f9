-- ===== src/Examples/Bulk.antt =====
-- The grouper on short inputs, with blocks of three commands.
use cpp.Prelude.{ℕ, ◌<◌, ◌≡◌, refl, List, [], ◌∷◌, ◌++◌, map, arith, Str, bytes, str_eq, length}
use cpp.Prelude.Result.{ok}
use cpp.Bulk.State.{
  Command, Event, command, block_start, block_end, end_of_file, State, normal, Block, handle_event,
  if_any,
}
use cpp.Bulk.State.Blocks.{
  handle_events, value_of, held, printed, values_of, depth_after, depth, stored,
  printed-handle_events,
}
use cpp.Bulk.State.Nesting.{IsOpen, block-handle_events, depth-handle_events}
use cpp.Bulk.State.Sizes.{commands_only, AllLength, commands-AllLength}
use cpp.Bulk.Printer.{Output, main_printers, handle_blocks}
use cpp.Bulk.Parser.{event_of, run}
use cpp.Bulk.Parser.Filled.{filled}
use cpp.Bulk.Parser.Program.{events_of, run-printed}

abbrev a : Command
a = record { value = bytes "a"; registration_time = 1 }

abbrev b : Command
b = record { value = bytes "b"; registration_time = 3 }

abbrev nested : List (ℕ × Event)
nested = (1, command a) ∷ (2, block_start) ∷ (3, command b) ∷ (4, block_end) ∷ []

abbrev input : List (ℕ × Str)
input = (1, bytes "a") ∷ (2, bytes "{") ∷ (3, bytes "b") ∷ (4, bytes "}") ∷ []

run-printed_example :
    (out : List Output) × (run 3 input 9 ≡ ok out)
    × ((blocks : List Block) × (handle_blocks main_printers blocks ≡ ok out)
        × (printed blocks ≡ values_of nested))
unfolding str_eq
run-printed_example =
    run-printed 3 9 input nested (unfold events_of event_of in refl) (unfold depth_after in refl)
      (unfold filled in refl) (omega arith)

block-handle_events_example :
    handle_events 3 ((0, block_start) ∷ nested ++ (9, block_end) ∷ []) (normal (a ∷ []))
    ≡ ok (normal [], if_any (a ∷ []) ++ stored nested ∷ [])
block-handle_events_example =
    block-handle_events 3 0 9 nested (a ∷ []) (unfold depth_after in refl) (omega arith)

depth-handle_events_example :
    (last : State) × (blocks : List Block) × (handle_events 3 nested (normal [])
      ≡ ok (last, blocks))
    × (depth last ≡ 0)
    × IsOpen last
depth-handle_events_example =
    depth-handle_events 3 nested (normal []) 0 tt (omega arith) (unfold depth_after in refl)

printed-handle_events_example :
    map value_of (held (normal (b ∷ []))) ++ values_of ((1, command a) ∷ (2, end_of_file) ∷ [])
    ≡ printed ((b ∷ a ∷ []) ∷ []) ++ map value_of (held (normal []))
printed-handle_events_example =
    printed-handle_events 3 ((1, command a) ∷ (2, end_of_file) ∷ []) (normal (b ∷ [])) (normal [])
      ((b ∷ a ∷ []) ∷ []) (unfold handle_events handle_event in refl)

commands-AllLength_example :
    (last : List Command) × (blocks : List Block) × (handle_events 2
        (commands_only ((1, a) ∷ (2, b) ∷ (3, a) ∷ []))
        (normal [])
      ≡ ok (normal last, blocks))
    × AllLength 2 blocks
    × (length last < 2)
commands-AllLength_example = commands-AllLength 2 ((1, a) ∷ (2, b) ∷ (3, a) ∷ []) [] (omega arith)
