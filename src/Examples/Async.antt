-- ===== src/Examples/Async.antt =====
-- Two connections of the asynchronous grouper, with a printer that has no error.
use cpp.Prelude.{◌++◌, ℕ, ◌≡◌, refl, true, List, [], ◌∷◌, arith, Str, bytes}
use cpp.Prelude.OrdMap.{find, assign}
use cpp.Prelude.Result.{ok}
use cpp.Bulk.Parser.{run, make_parser}
use cpp.Bulk.Printer.{Output, stdout, file, main_printers, handle_blocks}
use cpp.Async.{
  Handles, Reply, Controller, connect_parser, instance_made, Request, connect, receive, disconnect,
  serve,
}
use cpp.Async.Alone.{calls_of, replies_to, replies, is_open, AreStored, IsProper}
use cpp.Async.Isolation.{serve-replies}
use cpp.Async.Runs.{calls_for, printed_by, serve-run}

abbrev handles_all : Handles
handles_all b = true

abbrev connected : Controller
connected = record { storage = (0, make_parser 2) ∷ []; parser_counter = 1 }

connected-made : (connect_parser 2 instance_made).1 ≡ connected
unfolding connect_parser assign
connected-made = refl

connected-AreStored : AreStored (0 ∷ []) connected
unfolding is_open find
connected-AreStored id o n = ground (arith, o, n)

abbrev requests : List Request
requests =
    connect 3
    ∷ receive 1 5 (bytes "x")
    ∷ receive 0 6 (bytes "a")
    ∷ receive 1 7 (bytes "{")
    ∷ receive 0 8 (bytes "b")
    ∷ receive 0 9 (bytes "c")
    ∷ disconnect 1 10
    ∷ disconnect 0 11
    ∷ []

requests-IsProper : IsProper 1 (0 ∷ []) requests
unfolding is_open
requests-IsProper = (refl, (refl, (refl, (refl, (refl, tt)))))

serve-replies_example :
    (last : Controller) × (all : List (ℕ × Reply)) × (serve handles_all requests connected
      ≡ ok (last, all))
    × (replies_to 0 all ≡ replies handles_all (calls_of 0 requests) (find 0 connected.storage))
serve-replies_example =
    serve-replies handles_all requests connected (0 ∷ []) 0 connected-AreStored requests-IsProper
      (omega arith) (omega arith)

abbrev lines : List (ℕ × Str)
lines = (6, bytes "a") ∷ (8, bytes "b") ∷ (9, bytes "c") ∷ []

requests-calls_of : calls_of 0 requests ≡ calls_for lines 11
unfolding calls_of
requests-calls_of = refl

abbrev written : List Output
written =
    stdout (bytes "bulk: a, b" ++ 10 ∷ [])
    ∷ file (bytes "bulk0.log") (bytes "a" ++ 10 ∷ bytes "b" ++ 10 ∷ [])
    ∷ stdout (bytes "bulk: c" ++ 10 ∷ [])
    ∷ file (bytes "bulk0.log") (bytes "c" ++ 10 ∷ [])
    ∷ []

lines-run : run 2 lines 11 ≡ ok written
unfolding run
lines-run = refl

serve-run_example :
    (last : Controller) × (all : List (ℕ × Reply)) × (serve handles_all requests connected
      ≡ ok (last, all))
    × (handle_blocks main_printers (printed_by (replies_to 0 all)) ≡ ok written)
serve-run_example =
    serve-run handles_all requests connected (0 ∷ []) 0 2 11 lines written (λ b. refl)
      connected-AreStored requests-IsProper (omega arith) (omega arith) (unfold find in refl)
      requests-calls_of lines-run
