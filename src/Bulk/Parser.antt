-- ===== src/Bulk/Parser.antt =====
-- The line parser and the program's loop: 07_bulk/parser.hpp, parser.cpp and main.cpp.
pub mod Printing
pub mod Filled
pub mod Program
use cpp.Prelude.{ℕ, Bool, List, [], ◌∷◌, ◌++◌, if◌then◌else◌, Str, bytes, str_eq}
use cpp.Prelude.Result.{Result, ok, throw, invalid_argument, ◌>>=◌}
use cpp.Bulk.Printer.{Output, Printer, main_printers, handle_blocks}
use cpp.Bulk.State.{
  Event, Command, command, block_start, block_end, end_of_file, State, normal, Block, Handled,
  handle_event,
}

-- `TParser`
pub record Parser : Type 0 where
  pub block_size : ℕ
  pub state : State

abbrev pub make_parser : ℕ → Parser
make_parser block_size = record { block_size = block_size; state = normal [] }

-- The event of a line; an empty line is refused.
unfoldable pub event_of : ℕ → Str → Result Event
unfolding str_eq
event_of now [] = throw invalid_argument
event_of now (c ∷ line) =
    if str_eq (c ∷ line) (bytes "{")
    then ok block_start
    else if str_eq (c ∷ line) (bytes "}")
    then ok block_end
    else ok (command (record { value = c ∷ line; registration_time = now }))

unfoldable pub handle_line : ℕ → Str → Parser → Result (Parser × List Block)
unfolding event_of handle_event
handle_line now line p = do
  e ← event_of now line
  (s, blocks) ← handle_event p.block_size now e p.state
  ok (record p { state = s }, blocks)

-- `Terminate`: the state that the handler returns is dropped.
unfoldable pub terminate : ℕ → Parser → Result (List Block)
unfolding handle_event
terminate now p = do (s, blocks) ← handle_event p.block_size now end_of_file p.state; ok blocks

-- `Printer->HandleBlock` is called where the handler hands a block over: for one line, that is after all
-- else that the line changes.
unfoldable pub print_line : List Printer → ℕ → Str → Parser → Result (Parser × List Output)
unfolding handle_line handle_blocks
print_line printers now line p = do
  (p', blocks) ← handle_line now line p
  out ← handle_blocks printers blocks
  ok (p', out)

-- The loop of `main` over the lines read, each with the clock at its reading.
unfoldable pub print_lines : List Printer → List (ℕ × Str) → Parser → Result (Parser × List Output)
unfolding print_line
print_lines printers [] p = ok (p, [])
print_lines printers ((now, line) ∷ rest) p = do
  (p', out) ← print_line printers now line p
  (last, more) ← print_lines printers rest p'
  ok (last, out ++ more)

-- `main`: what its two printers write.
unfoldable pub run : ℕ → List (ℕ × Str) → ℕ → Result (List Output)
unfolding print_lines terminate handle_blocks
run block_size lines end = do
  (p, out) ← print_lines main_printers lines (make_parser block_size)
  blocks ← terminate end p
  more ← handle_blocks main_printers blocks
  ok (out ++ more)
