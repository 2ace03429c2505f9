-- ===== src/Examples/Container.antt =====
-- An allocator with pools of four elements of eight bytes, and a container of three values.
use cpp.Prelude.{ℕ, ◌≡◌, List, [], ◌∷◌, arith, length, get_elem?}
use cpp.Prelude.Result.{ok}
use cpp.Allocator.{Allocator, make_allocator, pools, after_all, allocate_all}
use cpp.Allocator.Blocks.{AreAllApart}
use cpp.Allocator.Pools.{AreAllWithin, allocate_all-AreAllApart}
use cpp.Container.{Container, make_container, const_at}
use cpp.Container.Refinement.{push_all, lookup, push_all-lookup}

abbrev fresh : Allocator
fresh = make_allocator 8 4

allocate_all-AreAllApart_example :
    AreAllApart (allocate_all 8 4 (2 ∷ 5 ∷ 1 ∷ []) fresh)
    × AreAllWithin
        (pools (after_all 8 4 (2 ∷ 5 ∷ 1 ∷ []) fresh))
        (allocate_all 8 4 (2 ∷ 5 ∷ 1 ∷ []) fresh)
allocate_all-AreAllApart_example =
    allocate_all-AreAllApart 8 4 (2 ∷ 5 ∷ 1 ∷ []) fresh (omega arith, omega arith)
      ((omega arith, omega arith), ((omega arith, omega arith), ((omega arith, omega arith), tt)))

abbrev three : List ℕ
three = 7 ∷ 8 ∷ 9 ∷ []

push_all-lookup_example :
    (c : Container) × (push_all 8 4 three (make_container fresh) ≡ ok c)
    × (c.size ≡ length three)
    × ((ix : ℕ) → const_at 8 ix c ≡ lookup (get_elem? three ix))
push_all-lookup_example =
    push_all-lookup 8 4 three fresh (omega arith, omega arith) (omega arith, omega arith)
