-- ===== src/BulkServer/Controller/Counting.antt =====
-- How often a value stands in the buffers, among the blocks and in the requests.
use cpp.Prelude.{ℕ, ◌+◌, ◌≡◌, none, some, List, [], ◌∷◌, ◌++◌, arith, if◌then◌else◌, Str, str_eq}
use cpp.Prelude.OrdMap.{OrdMap, find, assign}
use cpp.Prelude.Result.{Result, ok, throw}
use cpp.Bulk.State.{Command, Event, command, block_start, block_end, end_of_file, Block}
use cpp.BulkServer.Accumulator.{Handles}
use cpp.BulkServer.State.{State, normal, dynamic, handle_event}
use cpp.BulkServer.Controller.{Parser, Controller, event_of, erase, replace, Request, receive}

-- How often a value stands among commands.
unfoldable pub count : Str → List Command → ℕ
count v [] = 0
count v (c ∷ cs) = (if str_eq v c.value then 1 else 0) + count v cs

pub count-append : (v : Str) (xs ys : List Command) → count v (xs ++ ys) ≡ count v xs + count v ys
unfolding count
count-append v [] ys = omega arith
count-append v (c ∷ xs) ys = omega (arith, count-append v xs ys)

unfoldable pub count_blocks : Str → List Block → ℕ
unfolding count
count_blocks v [] = 0
count_blocks v (b ∷ blocks) = count v b + count_blocks v blocks

-- The commands that a connection holds in a block of its own.
abbrev pub own : State → List Command
own normal = []
own (dynamic level buffer) = buffer

unfoldable pub held : Str → OrdMap Parser → ℕ
unfolding count
held v [] = 0
held v ((j, p) ∷ m) = count v (own p.state) + held v m

-- All that is not printed yet.
abbrev pub pending : Str → Controller → ℕ
pending v c = count v c.shared + held v c.parsers

abbrev pub arrived_event : Str → Event → ℕ
arrived_event v (command c) = if str_eq v c.value then 1 else 0
arrived_event v _ = 0

abbrev pub arrived_line : Str → Result Event → ℕ
arrived_line v (ok e) = arrived_event v e
arrived_line v (throw x) = 0

-- The commands that a request brings.
unfoldable pub arrived : Str → Request → ℕ
unfolding event_of
arrived v (receive id now line) = arrived_line v (event_of now line)
arrived v _ = 0

pub count-handle_event :
    (v : Str) (handles : Handles) (n : ℕ) (e : Event) (s s' : State) (shared shared' : List Command)
    (blocks : List Block)
    → handle_event handles n e s shared ≡ ok (s', shared', blocks)
    → count v shared + count v (own s) + arrived_event v e
      ≡ count_blocks v blocks + count v shared' + count v (own s')
unfolding handle_event count_blocks
count-handle_event v handles n (command c) normal s' [] shared' blocks h = ground (arith, h)
count-handle_event v handles n (command c) normal s' (d ∷ shared) shared' blocks h =
    ground (arith, h, count-append v (d ∷ shared) (c ∷ []))
count-handle_event v handles n block_start normal s' [] shared' blocks h = ground (arith, h)
count-handle_event v handles n block_start normal s' (d ∷ shared) shared' blocks h =
    ground (arith, h)
count-handle_event v handles n block_end normal s' shared shared' blocks h = cc
count-handle_event v handles n end_of_file normal s' shared shared' blocks h = ground (arith, h)
count-handle_event v handles n (command c) (dynamic l b) s' shared shared' blocks h =
    ground (arith, h, count-append v b (c ∷ []))
count-handle_event v handles n block_start (dynamic l b) s' shared shared' blocks h =
    ground (arith, h)
count-handle_event v handles n block_end (dynamic l []) s' shared shared' blocks h =
    ground (arith, h)
count-handle_event v handles n block_end (dynamic l (d ∷ b)) s' shared shared' blocks h =
    ground (arith, h)
count-handle_event v handles n end_of_file (dynamic l b) s' shared shared' blocks h =
    ground (arith, h)

pub held-replace :
    (v : Str) (id : ℕ) (p q : Parser) (m : OrdMap Parser)
    → find id m ≡ some p
    → held v (replace id q m) + count v (own p.state) ≡ held v m + count v (own q.state)
unfolding held find replace
held-replace v id p q [] h = cc
held-replace v id p q ((j, r) ∷ m) h = ground (arith, h, held-replace v id p q m)

pub held-erase :
    (v : Str) (id : ℕ) (p : Parser) (m : OrdMap Parser)
    → find id m ≡ some p
    → held v (erase id m) + count v (own p.state) ≡ held v m
unfolding held find erase
held-erase v id p [] h = cc
held-erase v id p ((j, r) ∷ m) h = ground (arith, h, held-erase v id p m)

pub held-assign_new :
    (v : Str) (id : ℕ) (p : Parser) (m : OrdMap Parser)
    → find id m ≡ none
    → held v (assign id p m) ≡ held v m + count v (own p.state)
unfolding held find assign
held-assign_new v id p [] h = omega arith
held-assign_new v id p ((j, r) ∷ m) h = ground (arith, h, held-assign_new v id p m)
