-- ===== src/BulkServer/Accumulator.antt =====
-- The buffers of commands: 10_bulk_server/bulk/accumulator.hpp and accumulator.cpp. The printer is a
-- parameter: whether it handles a block without an error. The blocks handed to it are returned.
pub mod Sizes
use cpp.Prelude.{ℕ, Bool, List, [], ◌∷◌, ◌++◌, ◌==◌, if◌then◌else◌, length}
use cpp.Prelude.Result.{Result, ok, throw, runtime_error}
use cpp.Bulk.State.{Command, Block}

-- `HandleBlock(...).get().Ok`
abbrev pub Handles : Type 0
Handles = Block → Bool

-- The buffer that is left, and the blocks printed.
abbrev pub Dumped : Type 0
Dumped = Result (List Command × List Block)

-- The buffer is moved into the block; an error of the printer is thrown.
unfoldable pub hand_over : Handles → List Command → Dumped
hand_over handles buffer = if handles buffer then ok ([], buffer ∷ []) else throw runtime_error

-- `TDefaultAccumulator::AddCommand`
unfoldable pub add_default : Command → List Command → List Command
add_default c buffer = buffer ++ c ∷ []

-- `Dump` of both accumulators: an empty buffer is not printed.
unfoldable pub dump_buffer : Handles → List Command → Dumped
unfolding hand_over
dump_buffer handles [] = ok ([], [])
dump_buffer handles (c ∷ buffer) = hand_over handles (c ∷ buffer)

-- `TThreadSafeGroupingAccumulator::AddCommand`, with the block size of the caller.
unfoldable pub add_grouping : Handles → Command → ℕ → List Command → Dumped
unfolding hand_over
add_grouping handles c block_size buffer =
    let buffer' = buffer ++ c ∷ [] in
    if length buffer' == block_size then hand_over handles buffer' else ok (buffer', [])
