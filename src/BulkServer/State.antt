-- ===== src/BulkServer/State.antt =====
-- The states of a connection: 10_bulk_server/bulk/state.hpp and state.cpp. Commands outside of
-- braces go to the buffer that all connections share, those inside to a buffer of the connection.
use cpp.Prelude.{ℕ, List, [], ◌==◌, if◌then◌else◌}
use cpp.Prelude.Result.{Result, ok, throw, invalid_argument, ◌>>=◌}
use cpp.Bulk.State.{
  Command, Event, command, block_start, block_end, end_of_file, Block, increment, decrement,
}
use cpp.BulkServer.Accumulator.{Handles, add_default, dump_buffer, add_grouping}

-- `TNormalBlock` and `TDynamicBlock`
pub data State : Type 0 where
  normal : State
  dynamic : ℕ → List Command → State

-- The state, the shared buffer, and the blocks printed.
abbrev pub Handled : Type 0
Handled = Result (State × List Command × List Block)

-- `TNormalBlock::HandleEvent`
unfoldable pub handle_normal : Handles → ℕ → Event → List Command → Handled
unfolding add_grouping dump_buffer
handle_normal handles block_size (command c) shared = do
  (shared', blocks) ← add_grouping handles c block_size shared
  ok (normal, shared', blocks)
handle_normal handles block_size block_start shared = do
  (shared', blocks) ← dump_buffer handles shared
  ok (dynamic 1 [], shared', blocks)
handle_normal handles block_size block_end shared = throw invalid_argument
handle_normal handles block_size end_of_file shared = ok (normal, shared, [])

-- `TDynamicBlock::HandleEvent`
unfoldable pub handle_dynamic : Handles → Event → ℕ → List Command → List Command → Handled
unfolding add_default dump_buffer
handle_dynamic handles (command c) level buffer shared =
    ok (dynamic level (add_default c buffer), shared, [])
handle_dynamic handles block_start level buffer shared =
    ok (dynamic (increment level) buffer, shared, [])
handle_dynamic handles block_end level buffer shared =
    if decrement level == 0
    then (do (buffer', blocks) ← dump_buffer handles buffer; ok (normal, shared, blocks))
    else ok (dynamic (decrement level) buffer, shared, [])
handle_dynamic handles end_of_file level buffer shared = ok (dynamic level buffer, shared, [])

unfoldable pub handle_event : Handles → ℕ → Event → State → List Command → Handled
unfolding handle_normal handle_dynamic
handle_event handles block_size e normal shared = handle_normal handles block_size e shared
handle_event handles block_size e (dynamic level buffer) shared =
    handle_dynamic handles e level buffer shared
