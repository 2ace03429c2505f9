-- ===== src/BulkServer/Printer/Failures.antt =====
-- The result of several printers.
use cpp.Prelude.{◌≡◌, refl, Bool, ◌&&◌, List, [], ◌∷◌, arith}
use cpp.Prelude.Result.{ok}
use cpp.BulkServer.Printer.{PrintResult, first_failure, handle_composite}

abbrev pub all_succeeded : PrintResult → List PrintResult → Bool
all_succeeded result [] = result.succeeded
all_succeeded result (next ∷ rest) = result.succeeded && all_succeeded next rest

first_failure-succeeded :
    (result : PrintResult) (rest : List PrintResult)
    → (first_failure result rest).succeeded ≡ all_succeeded result rest
unfolding first_failure
first_failure-succeeded result [] = refl
first_failure-succeeded result (next ∷ rest) = ground (arith, first_failure-succeeded next rest)

-- With at least one printer, the composite printer returns, and its result is a success exactly when
-- every printer succeeded.
handle_composite-succeeded :
    (result : PrintResult) (rest : List PrintResult)
    → (r : PrintResult) × (handle_composite (result ∷ rest) ≡ ok r)
      × (r.succeeded ≡ all_succeeded result rest)
unfolding handle_composite
handle_composite-succeeded result rest =
    (first_failure result rest, refl, first_failure-succeeded result rest)
