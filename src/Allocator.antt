-- ===== src/Allocator.antt =====
-- The allocator of 03_allocator/allocator.hpp: THeapAllocator<T, N>, where `size` is sizeof(T). A block
-- is named by the number of its pool and its first byte there. `new char[]` gives what is asked for.
pub mod Blocks
pub mod Pools
use cpp.Prelude.{
  ℕ, zero, suc, ◌+◌, ◌*◌, ◌%◌, ◌^◌, Bool, Option, none, some, List, [], ◌∷◌, ◌++◌, leb,
  if◌then◌else◌, length, max,
}

-- `TPool`: the capacity, and how far `position` is from `ptr`.
pub record Pool : Type 0 where
  pub capacity : ℕ
  pub position : ℕ

-- `pools`, which is never empty: the last one, and those before it.
pub record Allocator : Type 0 where
  pub older : List Pool
  pub back : Pool

abbrev pub pools : Allocator → List Pool
pools a = a.older ++ a.back ∷ []

-- The size in bytes, as `std::size_t` has it.
abbrev pub bytes : ℕ → ℕ → ℕ
bytes size n = (n * size) % 2 ^ 64

-- The constructor of a pool.
abbrev pub make_pool : ℕ → ℕ → Pool
make_pool size n = record { capacity = bytes size n; position = 0 }

-- The constructor of the allocator.
abbrev pub make_allocator : ℕ → ℕ → Allocator
make_allocator size count = record { older = []; back = make_pool size count }

-- `hasSpaceFor`
unfoldable pub has_space_for : ℕ → ℕ → Pool → Bool
has_space_for size n p = leb ((p.position + bytes size n) % 2 ^ 64) p.capacity

-- `addNewPool`: the size in bytes is taken for a number of elements.
unfoldable pub add_new_pool : ℕ → ℕ → ℕ → Allocator → Allocator
add_new_pool size count n a = record {
  older = a.older ++ a.back ∷ [];
  back = make_pool size (bytes size (max n count));
}

-- A block in a pool.
pub record Address : Type 0 where
  pub pool : ℕ
  pub offset : ℕ

-- `allocate` of the last pool.
unfoldable pub allocate_back : ℕ → ℕ → Allocator → Address × Allocator
allocate_back size n a = (
  record { pool = length a.older; offset = a.back.position },
  record a {
    back = record { capacity = a.back.capacity; position = a.back.position + bytes size n };
  },
)

-- `allocate`
unfoldable pub allocate : ℕ → ℕ → ℕ → Allocator → Address × Allocator
unfolding has_space_for add_new_pool allocate_back
allocate size count n a =
    if has_space_for size n a.back
    then allocate_back size n a
    else allocate_back size n (add_new_pool size count n a)

-- The capacity of the pool with a number, `none` where there is no such pool.
unfoldable pub capacity_at : ℕ → List Pool → Option ℕ
capacity_at k [] = none
capacity_at zero (p ∷ rest) = some p.capacity
capacity_at (suc k) (p ∷ rest) = capacity_at k rest

-- The blocks of a list of requests, each with its length in bytes.
unfoldable pub allocate_all : ℕ → ℕ → List ℕ → Allocator → List (Address × ℕ)
unfolding allocate
allocate_all size count [] a = []
allocate_all size count (n ∷ requests) a =
    let (block, a') = allocate size count n a in
    (block, n * size) ∷ allocate_all size count requests a'

-- The allocator after a list of requests.
unfoldable pub after_all : ℕ → ℕ → List ℕ → Allocator → Allocator
unfolding allocate
after_all size count [] a = a
after_all size count (n ∷ requests) a = after_all size count requests (allocate size count n a).1
