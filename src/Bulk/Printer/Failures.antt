-- ===== src/Bulk/Printer/Failures.antt =====
-- Empty blocks at the printers.
use cpp.Prelude.{some, ℕ, ◌+◌, ◌<◌, ◌≡◌, refl, List, [], ◌∷◌, ◌++◌, arith, length}
use cpp.Prelude.Int.{u64_mod}
use cpp.Prelude.Result.{ok, throw, undefined_behaviour}
use cpp.Bulk.State.{Block, Event, block_start, block_end, normal}
use cpp.Bulk.State.Blocks.{handle_events, depth_after, stored}
use cpp.Bulk.State.Nesting.{block-handle_events}
use cpp.Bulk.Printer.{
  Printer, stdout_printer, file_printer, handle_block, handle_composite, handle_blocks,
}

empty-handle_composite :
    (before after : List Printer)
    → handle_composite (before ++ file_printer ∷ after) [] ≡ throw undefined_behaviour
unfolding handle_composite handle_block
empty-handle_composite [] after = refl
empty-handle_composite (stdout_printer ∷ before) after =
    ground (arith, empty-handle_composite before after)
empty-handle_composite (file_printer ∷ before) after = refl

-- A block in braces with no command in it is handed on as an empty block, and any list of printers
-- with the file printer then takes the front of an empty sequence.
empty-Fails :
    (n t0 t1 : ℕ) (body : List (ℕ × Event)) (before after : List Printer)
    → depth_after 0 body ≡ some 0
    → length body + 1 < u64_mod
    → stored body ≡ []
    → (blocks : List Block) × (handle_events n
          ((t0, block_start) ∷ body ++ (t1, block_end) ∷ [])
          (normal [])
        ≡ ok (normal [], blocks))
      × (handle_blocks (before ++ file_printer ∷ after) blocks ≡ throw undefined_behaviour)
unfolding handle_blocks
empty-Fails n t0 t1 body before after d l e = (
  stored body ∷ [],
  block-handle_events n t0 t1 body [] d l,
  ground (arith, e, empty-handle_composite before after),
)
