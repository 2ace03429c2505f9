-- ===== src/Container.antt =====
-- The container of 03_allocator/container.hpp, `TContainer<T, THeapAllocator<T, N>>`, with the memory
-- that its allocator gives out. A value is a number; memory that is not written holds nothing, and an
-- access that is not inside a block of the allocator is undefined behaviour.
pub mod Memory
pub mod Access
pub mod Growth
pub mod Refinement
use cpp.Prelude.{
  ℕ, zero, suc, ◌+◌, ◌*◌, ◌%◌, ◌^◌, Bool, true, false, ◌||◌, Option, none, some, List, [], ◌∷◌,
  ◌==◌, ◌&&◌, ltb, leb, not, if◌then◌else◌,
}
use cpp.Prelude.Result.{Result, ok, throw, thrown_string, undefined_behaviour, ◌>>=◌}
use cpp.Allocator.{Address, Pool, Allocator, pools, capacity_at, allocate}

-- The writes, the last one first.
abbrev pub Memory : Type 0
Memory = List (Address × ℕ)

unfoldable pub read : Address → Memory → Option ℕ
read a [] = none
read a ((b, x) ∷ memory) =
    let rest = read a memory in if a.pool == b.pool && a.offset == b.offset then some x else rest

-- The element `i` of an array.
abbrev pub element : ℕ → Address → ℕ → Address
element width b i = record { pool = b.pool; offset = b.offset + i * width }

-- Whether an element of `width` bytes is in one of the blocks that were given out.
unfoldable pub is_given : ℕ → List (Address × ℕ) → Address → Bool
is_given width [] p = false
is_given width ((b, len) ∷ blocks) p =
    (p.pool == b.pool && (leb b.offset p.offset && leb (p.offset + width) (b.offset + len)))
    || is_given width blocks p

-- Whether it is in the pool that it names.
unfoldable pub is_in_pool : ℕ → List Pool → Address → Bool
unfolding capacity_at
is_in_pool width ps p = elim (capacity_at p.pool ps) [
  | none ↦ false
  | some capacity ↦ leb (p.offset + width) capacity
]

unfoldable pub is_accessible : ℕ → Allocator → List (Address × ℕ) → Address → Bool
unfolding is_given is_in_pool
is_accessible width a blocks p = is_given width blocks p && is_in_pool width (pools a) p

-- `TContainer`: `blocks` are those that its allocator gave out; `position_` is the element `size_` of the storage, whenever there is a storage.
pub record Container : Type 0 where
  pub allocator : Allocator
  pub blocks : List (Address × ℕ)
  pub memory : Memory
  pub storage : Option Address
  pub position : Option Address
  pub size : ℕ
  pub capacity : ℕ

-- The constructor
abbrev pub make_container : Allocator → Container
make_container a = record {
  allocator = a;
  blocks = [];
  memory = [];
  storage = none;
  position = none;
  size = 0;
  capacity = 0;
}

-- `new_storage[i] = storage_[i]` for the `n` elements from `i` on.
unfoldable pub copy_elements :
    (Address → Bool) → ℕ → ℕ → Address → Address → ℕ → Memory → Result Memory
copy_elements accessible width zero old new i memory = ok memory
copy_elements accessible width (suc n) old new i memory =
    let skipped = copy_elements accessible width n old new (i + 1) memory in
    if accessible (element width old i) && accessible (element width new i)
    then elim (read (element width old i) memory) [
      | none ↦ skipped
      | some x ↦
          copy_elements accessible width n old new (i + 1) ((element width new i, x) ∷ memory)
    ]
    else throw undefined_behaviour

-- The growth to the capacity `n`, from the storage `old`.
unfoldable pub grow_to : ℕ → ℕ → ℕ → Option Address → Container → Result Container
unfolding copy_elements is_accessible
grow_to width count n none c = throw undefined_behaviour
grow_to width count n (some old) c =
    let (new, a) = allocate width count n c.allocator in
    let blocks : List (Address × ℕ) = (new, n * width) ∷ c.blocks in
    do
      memory ← copy_elements (is_accessible width a blocks) width c.size old new 0 c.memory
      ok record c {
        allocator = a;
        blocks = blocks;
        memory = memory;
        storage = some new;
        position = some (element width new c.size);
        capacity = n;
      }

-- The first storage.
unfoldable pub make_storage : ℕ → ℕ → Container → Container
make_storage width count c =
    let (new, a) = allocate width count 1 c.allocator in
    record c {
      allocator = a;
      blocks = (new, 1 * width) ∷ c.blocks;
      storage = some new;
      position = some new;
      capacity = 1;
    }

-- `maybeGrow`
unfoldable pub maybe_grow : ℕ → ℕ → Container → Result Container
unfolding make_storage grow_to
maybe_grow width count c =
    if ltb c.size c.capacity
    then ok c
    else if c.capacity == 0
    then ok (make_storage width count c)
    else grow_to width count ((c.capacity * 2) % 2 ^ 64) c.storage c

-- `*position_ = value; position_++; size_++`
unfoldable pub write_next : ℕ → ℕ → Option Address → Container → Result Container
unfolding is_accessible
write_next width value none c = throw undefined_behaviour
write_next width value (some p) c =
    if is_accessible width c.allocator c.blocks p
    then ok record c {
      memory = (p, value) ∷ c.memory;
      position = some (element width p 1);
      size = c.size + 1;
    }
    else throw undefined_behaviour

-- `push`
unfoldable pub push : ℕ → ℕ → ℕ → Container → Result Container
unfolding maybe_grow write_next
push width count value c = do c' ← maybe_grow width count c; write_next width value c'.position c'

-- The element that both operators read, `none` where it was never written.
unfoldable pub read_element : ℕ → ℕ → Option Address → Container → Result (Option ℕ)
unfolding is_accessible
read_element width ix none c = throw undefined_behaviour
read_element width ix (some b) c =
    if is_accessible width c.allocator c.blocks (element width b ix)
    then ok (read (element width b ix) c.memory)
    else throw undefined_behaviour

-- `operator[]`
unfoldable pub at : ℕ → ℕ → Container → Result (Option ℕ)
unfolding read_element
at width ix c = if leb c.capacity ix then throw thrown_string else read_element width ix c.storage c

-- `operator[]` of a constant container
unfoldable pub const_at : ℕ → ℕ → Container → Result (Option ℕ)
unfolding read_element
const_at width ix c =
    if leb c.size ix then throw thrown_string else read_element width ix c.storage c
