-- ===== src/BulkServer/Accumulator/Sizes.antt =====
-- The sizes of the blocks that commands outside of braces are printed in.
use mathlib.Core.List.{append_assoc, append-nil}
use cpp.Prelude.{
  inl, inr, ℕ, ◌≤◌, ◌<◌, ◌≡◌, refl, true, Bool-cases, List, [], ◌∷◌, ◌++◌, arith, ◌==◌, length,
  length-append,
}
use cpp.Prelude.Result.{ok, ◌>>=◌}
use cpp.Bulk.State.{Command, Block}
use cpp.Bulk.State.Sizes.{AllLength}
use cpp.BulkServer.Accumulator.{Handles, Dumped, add_grouping}

-- Commands one after another, all with one block size.
unfoldable pub add_all : Handles → ℕ → List Command → List Command → Dumped
unfolding add_grouping
add_all handles n [] buffer = ok (buffer, [])
add_all handles n (c ∷ cs) buffer = do
  (buffer', blocks) ← add_grouping handles c n buffer
  (last, more) ← add_all handles n cs buffer'
  ok (last, blocks ++ more)

-- From a shared buffer that holds fewer commands than a block, commands with one block size are
-- printed in blocks of exactly that size when the printer has no error, and fewer commands than
-- that are left.
pub add_all-AllLength :
    (handles : Handles) (n : ℕ) (cs buffer : List Command)
    → ((b : Block) → handles b ≡ true)
    → length buffer < n
    → (last : List Command) × (blocks : List Block) × (add_all handles n cs buffer
        ≡ ok (last, blocks))
      × AllLength n blocks
      × (length last < n)
unfolding add_all
add_all-AllLength handles n [] buffer t h = (buffer, [], refl, tt, h)
add_all-AllLength handles n (c ∷ cs) buffer t h =
    elim (Bool-cases (length (buffer ++ c ∷ []) == n)) [
      | inl full ↦
          let (last, blocks, e, a, l) = add_all-AllLength handles n cs [] t (omega arith) in
          (
            last,
            (buffer ++ c ∷ []) ∷ blocks,
            ground (arith, full, e, t (buffer ++ c ∷ [])),
            (ground (arith, full), a),
            l,
          )
      | inr more ↦
          let (last, blocks, e, a, l) =
            add_all-AllLength handles n cs (buffer ++ c ∷ []) t
              (ground (arith, more, length-append buffer (c ∷ []))) in
          (last, blocks, ground (arith, more, e), a, l)
    ]

-- When the shared buffer already holds as many commands as a block of the caller or more, the calls
-- of that block size never print again: the commands only pile up.
add_all-starved :
    (handles : Handles) (n : ℕ) (cs buffer : List Command)
    → n ≤ length buffer
    → add_all handles n cs buffer ≡ ok (buffer ++ cs, [])
unfolding add_all
add_all-starved handles n [] buffer h = ground (arith, append-nil buffer)
add_all-starved handles n (c ∷ cs) buffer h = ground (
  arith,
  length-append buffer (c ∷ []),
  add_all-starved handles n cs (buffer ++ c ∷ []),
  append_assoc buffer (c ∷ []) cs,
)
