-- ===== src/Examples/BulkServer.antt =====
-- Two connections of the bulk server, with blocks of three and of two commands.
use cpp.Prelude.{false, ◌+◌, ◌<◌, ◌≡◌, refl, List, [], ◌∷◌, arith, bytes, str_eq, length, true}
use cpp.Prelude.OrdMap.{find, assign}
use cpp.Prelude.Result.{ok, throw}
use cpp.Bulk.State.{Command, Block}
use cpp.Bulk.State.Sizes.{AllLength}
use cpp.BulkServer.Accumulator.{Handles}
use cpp.BulkServer.Accumulator.Sizes.{add_all, add_all-AllLength}
use cpp.BulkServer.Printer.{PrintResult}
use cpp.BulkServer.State.{normal, dynamic}
use cpp.BulkServer.Controller.{
  Controller, instance_made, Request, connect, receive, disconnect, serve,
}
use cpp.BulkServer.Controller.Counting.{count_blocks, pending}
use cpp.BulkServer.Controller.Serving.{arrived_all, lost_all, serve-conserves}

abbrev handles_all : Handles
handles_all b = true

abbrev a : Command
a = record { value = bytes "a"; registration_time = 1 }

abbrev requests : List Request
requests =
    connect 3
    ∷ connect 2
    ∷ receive 0 1 (bytes "a")
    ∷ receive 1 2 (bytes "a")
    ∷ receive 1 3 (bytes "{")
    ∷ receive 1 4 (bytes "a")
    ∷ disconnect 1
    ∷ []

abbrev served : Controller × List Block
served = elim (serve handles_all requests instance_made) [
  | ok r ↦ r
  | throw x ↦ (instance_made, [])
]

serve-conserves_example :
    pending (bytes "a") instance_made + arrived_all (bytes "a") requests
    ≡ count_blocks (bytes "a") served.1
      + pending (bytes "a") served.0
      + lost_all handles_all (bytes "a") requests instance_made
unfolding serve str_eq assign find
serve-conserves_example =
    serve-conserves (bytes "a") handles_all requests instance_made served.0 served.1 (λ k l. refl)
      (omega arith) refl

abbrev inside : Controller
inside = record {
  shared = a ∷ [];
  parsers =
      (0, record { block_size = 3; state = dynamic 1 (a ∷ []) })
      ∷ (1, record { block_size = 2; state = normal })
      ∷ [];
  parser_counter = 2;
}

add_all-AllLength_example :
    (last : List Command) × (blocks : List Block) × (add_all handles_all 2 (a ∷ a ∷ []) (a ∷ [])
      ≡ ok (last, blocks))
    × AllLength 2 blocks
    × (length last < 2)
add_all-AllLength_example =
    add_all-AllLength handles_all 2 (a ∷ a ∷ []) (a ∷ []) (λ x. refl) (omega arith)

abbrev failed_result : PrintResult
failed_result = record { succeeded = false; message = bytes "disk" }
