-- ===== src/Container/Access.antt =====
-- The elements of an array that the allocator has given out can be accessed.
use cpp.Prelude.{ℕ, ◌*◌, ◌<◌, ◌≡◌, true, inl, inr, Option-cases, List, ◌∷◌, arith}
use cpp.Allocator.{Address, Allocator, pools, capacity_at, allocate}
use cpp.Allocator.Blocks.{IsAllocated}
use cpp.Allocator.Pools.{allocated-IsWithin, capacity_at-allocate}
use cpp.Container.{element, is_given, is_in_pool, is_accessible}
use cpp.Container.Memory.{before-lem}

-- What the allocator has just given out.
pub allocated-accessible :
    (width n i : ℕ) (a a' : Allocator) (b : Address) (blocks : List (Address × ℕ))
    → IsAllocated (n * width) a b a'
    → i < n
    → is_accessible width a' ((b, n * width) ∷ blocks) (element width b i) ≡ true
unfolding is_accessible is_given is_in_pool
allocated-accessible width n i a a' b blocks w l =
    let (capacity, e, f) = allocated-IsWithin (n * width) a a' b w in
    ground (arith, e, f, before-lem width i n l)

-- What could be accessed still can, after another block is given out.
pub allocate-accessible :
    (width size count n : ℕ) (a : Allocator) (blocks : List (Address × ℕ)) (b : Address × ℕ)
    (p : Address)
    → is_accessible width a blocks p ≡ true
    → is_accessible width (allocate size count n a).1 (b ∷ blocks) p ≡ true
unfolding is_accessible is_given is_in_pool
allocate-accessible width size count n a blocks (b, len) p h =
    elim (Option-cases (capacity_at p.pool (pools a))) [
      | inl e ↦ absurd (ground (arith, e, h))
      | inr (capacity, e) ↦
          ground (arith, e, h, capacity_at-allocate size count n p.pool capacity a e)
    ]
