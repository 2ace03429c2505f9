-- ===== src/Bulk/State/Sizes.antt =====
-- The sizes of the blocks outside of braces.
use cpp.Prelude.{
  inl, inr, ℕ, ◌<◌, ◌≡◌, refl, Bool-cases, List, [], ◌∷◌, ◌++◌, arith, ◌==◌, length, length-append,
}
use cpp.Prelude.Result.{ok}
use cpp.Bulk.State.{Command, Event, command, normal, Block, stamped, handle_event}
use cpp.Bulk.State.Blocks.{handle_events}

abbrev pub commands_only : List (ℕ × Command) → List (ℕ × Event)
commands_only [] = []
commands_only ((now, c) ∷ rest) = (now, command c) ∷ commands_only rest

abbrev pub AllLength : ℕ → List Block → Type 0
AllLength n [] = Unit
AllLength n (b ∷ blocks) = (length b ≡ n) × AllLength n blocks

-- Commands outside of braces, from a buffer that holds fewer than a block, are printed in blocks of
-- exactly the block size, and fewer commands than that are held afterwards.
pub commands-AllLength :
    (n : ℕ) (cs : List (ℕ × Command)) (buffer : List Command)
    → length buffer < n
    → (last : List Command) × (blocks : List Block) × (handle_events n
          (commands_only cs)
          (normal buffer)
        ≡ ok (normal last, blocks))
      × AllLength n blocks
      × (length last < n)
unfolding handle_events
commands-AllLength n [] buffer h = (buffer, [], refl, tt, h)
commands-AllLength n ((now, c) ∷ cs) buffer h =
    elim (Bool-cases (length (buffer ++ stamped now c ∷ []) == n)) [
      | inl full ↦
          let (last, blocks, e, a, l) = commands-AllLength n cs [] (omega arith) in
          (
            last,
            (buffer ++ stamped now c ∷ []) ∷ blocks,
            unfold handle_event in ground (arith, full, e),
            (ground (arith, full), a),
            l,
          )
      | inr more ↦
          let (last, blocks, e, a, l) =
            commands-AllLength n cs (buffer ++ stamped now c ∷ [])
              (ground (arith, more, length-append buffer (stamped now c ∷ []))) in
          (last, blocks, unfold handle_event in ground (arith, more, e), a, l)
    ]
