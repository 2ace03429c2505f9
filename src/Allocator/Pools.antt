-- ===== src/Allocator/Pools.antt =====
-- The blocks of the allocator lie in its pools.
use cpp.Prelude.{
  ℕ, zero, suc, ◌+◌, ◌*◌, ◌≤◌, ◌≡◌, refl, ap, ◌∙◌, Bool-cases, inl, inr, some, List, [], ◌∷◌, ◌++◌,
  arith, length,
}
use cpp.Allocator.{
  Pool, Allocator, Address, pools, capacity_at, add_new_pool, has_space_for, allocate_back,
  allocate, allocate_all, after_all,
}
use cpp.Allocator.Blocks.{
  IsAllocator, IsAllocated, AreRequests, AreAllApart, blocks_apart, allocate-IsAllocated,
}

-- A block of so many bytes lies in the pool that it names.
abbrev pub IsWithin : List Pool → Address → ℕ → Type 0
IsWithin ps b len =
    (capacity : ℕ) × (capacity_at b.pool ps ≡ some capacity) × (b.offset + len ≤ capacity)

capacity_at-append :
    (k capacity : ℕ) (ps qs : List Pool)
    → capacity_at k ps ≡ some capacity
    → capacity_at k (ps ++ qs) ≡ some capacity
unfolding capacity_at
capacity_at-append k capacity [] qs e = absurd (ground (arith, e))
capacity_at-append zero capacity (p ∷ ps) qs e = e
capacity_at-append (suc k) capacity (p ∷ ps) qs e = capacity_at-append k capacity ps qs e

capacity_at-last :
    (ps : List Pool) (p : Pool) → capacity_at (length ps) (ps ++ p ∷ []) ≡ some p.capacity
unfolding capacity_at
capacity_at-last [] p = refl
capacity_at-last (q ∷ ps) p = ground (arith, capacity_at-last ps p)

-- The last pool may move its position.
capacity_at-moved :
    (k : ℕ) (ps : List Pool) (p q : Pool)
    → p.capacity ≡ q.capacity
    → capacity_at k (ps ++ p ∷ []) ≡ capacity_at k (ps ++ q ∷ [])
unfolding capacity_at
capacity_at-moved zero [] p q e = ap some e
capacity_at-moved (suc k) [] p q e = refl
capacity_at-moved zero (r ∷ ps) p q e = refl
capacity_at-moved (suc k) (r ∷ ps) p q e = capacity_at-moved k ps p q e

pub allocated-IsWithin :
    (len : ℕ) (a a' : Allocator) (b : Address) → IsAllocated len a b a' → IsWithin (pools a') b len
allocated-IsWithin len a a' b w = (
  a'.back.capacity,
  ap (λ k. capacity_at k (pools a')) w.within.0 ∙ capacity_at-last a'.older a'.back,
  w.within.1,
)

pub capacity_at-allocate :
    (size count n k capacity : ℕ) (a : Allocator)
    → capacity_at k (pools a) ≡ some capacity
    → capacity_at k (pools (allocate size count n a).1) ≡ some capacity
unfolding allocate allocate_back add_new_pool
capacity_at-allocate size count n k capacity a e = elim (Bool-cases (has_space_for size n a.back)) [
  | inl s ↦ rw (s) (capacity_at-moved k a.older _ a.back refl ∙ e)
  | inr s ↦ rw (s) (capacity_at-append k capacity (pools a) _ e)
]

IsWithin-after_all :
    (size count : ℕ) (requests : List ℕ) (a : Allocator) (b : Address) (len : ℕ)
    → IsWithin (pools a) b len
    → IsWithin (pools (after_all size count requests a)) b len
unfolding after_all
IsWithin-after_all size count [] a b len w = w
IsWithin-after_all size count (n ∷ requests) a b len (c, e, l) =
    IsWithin-after_all size count requests (allocate size count n a).1 b len
      (c, capacity_at-allocate size count n b.pool c a e, l)

abbrev pub AreAllWithin : List Pool → List (Address × ℕ) → Type 0
AreAllWithin ps [] = Unit
AreAllWithin ps ((b, len) ∷ blocks) = IsWithin ps b len × AreAllWithin ps blocks

blocks_within :
    (size count : ℕ) (requests : List ℕ) (a : Allocator)
    → IsAllocator a
    → AreRequests size count requests
    → AreAllWithin (pools (after_all size count requests a)) (allocate_all size count requests a)
unfolding allocate_all after_all
blocks_within size count [] a i r = tt
blocks_within size count (n ∷ requests) a i r =
    let w = allocate-IsAllocated size count n a i r.0 in
    let (b, a') = allocate size count n a in
    (
      IsWithin-after_all size count requests a' b (n * size)
          (allocated-IsWithin (n * size) a a' b w),
      blocks_within size count requests a' w.valid r.1,
    )

-- The blocks that a valid allocator gives out, one request after another, have no byte in common, and
-- each lies with all its bytes in the pool that it names, when each request, or a new pool for it, takes
-- less than 2^63 bytes.
pub allocate_all-AreAllApart :
    (size count : ℕ) (requests : List ℕ) (a : Allocator)
    → IsAllocator a
    → AreRequests size count requests
    → AreAllApart (allocate_all size count requests a)
      × AreAllWithin (pools (after_all size count requests a)) (allocate_all size count requests a)
allocate_all-AreAllApart size count requests a i r =
    (blocks_apart size count requests a i r, blocks_within size count requests a i r)
