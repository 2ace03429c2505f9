-- ===== src/Examples/ByteOrder.antt =====
-- The number 258, with its bytes in both orders.
use cpp.Prelude.{◌≡◌, true, false, some, arith}
use cpp.Prelude.Result.{ok}
use cpp.ByteOrder.{swap}
use cpp.ByteOrder.Swaps.{reversed, swap-swap}

swap-swap_example :
    (swap true 258 ≡ ok (some (reversed 258))) × (swap false (reversed 258) ≡ ok (some 258))
swap-swap_example = swap-swap true false 258 (omega arith)
