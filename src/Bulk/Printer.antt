-- ===== src/Bulk/Printer.antt =====
-- The printers: 07_bulk/printer.hpp and printer.cpp. A printer returns what it writes.
pub mod Failures
use cpp.Prelude.{ℕ, ◌/◌, List, [], ◌∷◌, ◌++◌, Str, bytes}
use cpp.Prelude.Decimal.{show_nat}
use cpp.Prelude.Result.{Result, ok, throw, undefined_behaviour, ◌>>=◌}
use cpp.Bulk.State.{Command, Block}

-- Text on the standard output, or a file of the working directory with its content.
pub data Output : Type 0 where
  stdout : Str → Output
  file : Str → Str → Output

pub data Printer : Type 0 where
  stdout_printer file_printer : Printer

-- The values with ", " between two of them.
unfoldable pub comma_separated : Block → Str
comma_separated [] = []
comma_separated (c ∷ []) = c.value
comma_separated (c ∷ d ∷ rest) = c.value ++ (bytes ", " ++ comma_separated (d ∷ rest))

-- `TStdOutPrinter::HandleBlock`
unfoldable pub print_stdout : Block → Output
unfolding comma_separated
print_stdout commands = stdout (bytes "bulk: " ++ (comma_separated commands ++ 10 ∷ []))

unfoldable pub lines : Block → Str
lines [] = []
lines (c ∷ rest) = c.value ++ 10 ∷ lines rest

-- `TFilePrinter::HandleBlock`; `front()` of an empty block is undefined.
unfoldable pub print_file : Block → Result Output
unfolding lines show_nat
print_file [] = throw undefined_behaviour
print_file (c ∷ rest) = ok (
    file (bytes "bulk" ++ (show_nat (c.registration_time / 1000000000) ++ bytes ".log"))
      (lines (c ∷ rest)))

unfoldable pub handle_block : Printer → Block → Result Output
unfolding print_stdout print_file
handle_block stdout_printer commands = ok (print_stdout commands)
handle_block file_printer commands = print_file commands

-- `TCompositePrinter::HandleBlock`: each printer in turn.
unfoldable pub handle_composite : List Printer → Block → Result (List Output)
unfolding handle_block
handle_composite [] commands = ok []
handle_composite (p ∷ printers) commands = do
  out ← handle_block p commands
  more ← handle_composite printers commands
  ok (out ∷ more)

-- The printers on one block after another.
unfoldable pub handle_blocks : List Printer → List Block → Result (List Output)
unfolding handle_composite
handle_blocks printers [] = ok []
handle_blocks printers (b ∷ blocks) = do
  out ← handle_composite printers b
  more ← handle_blocks printers blocks
  ok (out ++ more)

-- The printers of `main`, in their order.
abbrev pub main_printers : List Printer
main_printers = stdout_printer ∷ file_printer ∷ []
