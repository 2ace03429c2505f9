-- ===== src/BulkServer/Printer.antt =====
-- The printers: 10_bulk_server/bulk/printer.hpp and printer.cpp. The tasks that they hand to their
-- thread pools are run at once, and the futures are the results.
pub mod Failures
use cpp.Prelude.{ℕ, ◌/◌, Bool, true, List, [], ◌∷◌, ◌++◌, if◌then◌else◌, Str, bytes}
use cpp.Prelude.Decimal.{show_nat}
use cpp.Prelude.Result.{Result, ok, throw, undefined_behaviour}
use cpp.Bulk.State.{Block}
use cpp.Bulk.Printer.{Output, stdout, file}

-- `IPrinter::TResult`
pub record PrintResult : Type 0 where
  pub succeeded : Bool
  pub message : Str

abbrev pub succeeded_result : PrintResult
succeeded_result = record { succeeded = true; message = [] }

-- The loop of `DumpCommands`
unfoldable pub dump_values : Block → Str
dump_values [] = []
dump_values (c ∷ []) = c.value
dump_values (c ∷ d ∷ rest) = c.value ++ (bytes ", " ++ dump_values (d ∷ rest))

-- `DumpCommands`
unfoldable pub dump_commands : Block → Str
unfolding dump_values
dump_commands commands = bytes "bulk: " ++ (dump_values commands ++ 10 ∷ [])

-- `TStdOutPrinter::HandleBlock`
unfoldable pub print_stdout : Block → Output × PrintResult
unfolding dump_commands
print_stdout commands = (stdout (dump_commands commands), succeeded_result)

-- `TFilePrinter::HandleBlock` on the thread `thread_id`: the name holds the microseconds of the first
-- command and the thread.
unfoldable pub print_file : ℕ → Block → Result (Output × PrintResult)
unfolding dump_commands show_nat
print_file thread_id [] = throw undefined_behaviour
print_file thread_id (c ∷ rest) = ok (
  file
      (bytes "bulk"
        ++ (show_nat (c.registration_time / 1000)
            ++ (bytes "_" ++ (show_nat thread_id ++ bytes ".log"))))
      (dump_commands (c ∷ rest)),
  succeeded_result,
)

-- The loop of `TCompositePrinter::HandleBlock` over the futures: the first failure, or the last
-- result. With no printer, `futures[0]` is undefined.
unfoldable pub first_failure : PrintResult → List PrintResult → PrintResult
first_failure result [] = result
first_failure result (next ∷ rest) = if result.succeeded then first_failure next rest else result

unfoldable pub handle_composite : List PrintResult → Result PrintResult
unfolding first_failure
handle_composite [] = throw undefined_behaviour
handle_composite (result ∷ rest) = ok (first_failure result rest)
