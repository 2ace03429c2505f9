-- ===== src/Bulk/State.antt =====
-- The two states of the grouper and their events: 07_bulk/event.hpp, state.hpp and state.cpp.
-- A handler returns the new state and the blocks that it hands to the printer, in their order. The
-- clock is a parameter: `now` is what `system_clock::now()` returns, in nanoseconds.
pub mod Blocks
pub mod Nesting
pub mod Sizes
use cpp.Prelude.{ℕ, suc, ◌+◌, ◌-◌, ◌%◌, Bool, List, [], ◌∷◌, ◌++◌, ◌==◌, if◌then◌else◌, length, Str}
use cpp.Prelude.Int.{u64_mod}
use cpp.Prelude.Result.{Result, ok, throw, invalid_argument}

pub record Command : Type 0 where
  pub value : Str
  pub registration_time : ℕ

pub data Event : Type 0 where
  command : Command → Event
  block_start block_end end_of_file : Event

-- `TNormalBlock` and `TDynamicBlock`; the block size and the printer, which both hold, are left to
-- the caller.
pub data State : Type 0 where
  normal : List Command → State
  dynamic : ℕ → List Command → State

abbrev pub Block : Type 0
Block = List Command

-- A handler returns the state that follows and the blocks that it printed.
abbrev pub Handled : Type 0
Handled = Result (State × List Block)

-- `Commands.emplace_back(ev.Value)` makes a new command, with a time of its own.
abbrev pub stamped : ℕ → Command → Command
stamped now c = record { value = c.value; registration_time = now }

-- `if (Commands.size()) Printer->HandleBlock(Commands)`
abbrev pub if_any : List Command → List Block
if_any [] = []
if_any (c ∷ commands) = (c ∷ commands) ∷ []

-- `TNormalBlock::HandleEvent`
unfoldable pub handle_normal : ℕ → ℕ → Event → List Command → Handled
handle_normal block_size now (command c) commands =
    let commands' = commands ++ stamped now c ∷ [] in
    if length commands' == block_size
    then ok (normal [], commands' ∷ [])
    else ok (normal commands', [])
handle_normal block_size now block_start commands = ok (dynamic 1 [], if_any commands)
handle_normal block_size now block_end commands = throw invalid_argument
handle_normal block_size now end_of_file commands = ok (normal [], if_any commands)

-- `NestingLevel++` and `NestingLevel--` on `std::size_t`
abbrev pub increment : ℕ → ℕ
increment n = (n + 1) % u64_mod

abbrev pub decrement : ℕ → ℕ
decrement n = (n + (u64_mod - 1)) % u64_mod

-- `TDynamicBlock::HandleEvent`
unfoldable pub handle_dynamic : ℕ → Event → ℕ → List Command → Handled
handle_dynamic now (command c) level commands =
    ok (dynamic level (commands ++ stamped now c ∷ []), [])
handle_dynamic now block_start level commands = ok (dynamic (increment level) commands, [])
handle_dynamic now block_end level commands =
    if decrement level == 0
    then ok (normal [], commands ∷ [])
    else ok (dynamic (decrement level) commands, [])
handle_dynamic now end_of_file level commands = ok (dynamic level commands, [])

-- The virtual call of `HandleEvent`.
unfoldable pub handle_event : ℕ → ℕ → Event → State → Handled
unfolding handle_normal handle_dynamic
handle_event block_size now e (normal commands) = handle_normal block_size now e commands
handle_event block_size now e (dynamic level commands) = handle_dynamic now e level commands
