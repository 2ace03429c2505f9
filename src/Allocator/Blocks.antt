-- ===== src/Allocator/Blocks.antt =====
-- The blocks of the allocator lie in their pools, apart from each other.
use native.Mathlib.Nat.{mul-le-mul}
use cpp.Prelude.{
  ℕ, ◌+◌, ◌*◌, ◌%◌, ◌^◌, ◌≤◌, ◌<◌, ◌≡◌, ◌≢◌, ◌⊎◌, inl, inr, refl, ap, ◌∙◌, true, false, Bool-cases,
  List, [], ◌∷◌, arith, length, length-append, max,
}
use cpp.Allocator.{
  Pool, Allocator, Address, bytes, has_space_for, add_new_pool, allocate_back, allocate,
  allocate_all,
}

-- The position is in the pool, whose size is below 2^63 bytes.
abbrev pub IsAllocator : Allocator → Type 0
IsAllocator a = (a.back.position ≤ a.back.capacity) × (a.back.capacity < 2 ^ 63)

-- A request below 2^63 bytes, also where `addNewPool` multiplies twice.
abbrev pub IsRequest : ℕ → ℕ → ℕ → Type 0
IsRequest size count n = (0 < size) × (max n count * size * size < 2 ^ 63)

-- A block of so many bytes was given out before.
abbrev pub IsGiven : Allocator → Address → ℕ → Type 0
IsGiven a b len =
    (b.pool < length a.older) ⊎ ((b.pool ≡ length a.older) × (b.offset + len ≤ a.back.position))

-- Two blocks have no byte in common.
abbrev pub AreApart : Address → ℕ → Address → ℕ → Type 0
AreApart b m c n = (b.pool ≢ c.pool) ⊎ ((b.offset + m ≤ c.offset) ⊎ (c.offset + n ≤ b.offset))

-- What `allocate` promises: a block within its pool, apart from all that were given out, and these
-- and the new one are given out now.
pub record IsAllocated (len : ℕ) (a : Allocator) (b : Address) (a' : Allocator) : Type 0 where
  pub valid : IsAllocator a'
  pub within : (b.pool ≡ length a'.older) × (b.offset + len ≤ a'.back.capacity)
  pub given : IsGiven a' b len
  pub kept : (c : Address) (n : ℕ) → IsGiven a c n → IsGiven a' c n
  pub apart : (c : Address) (n : ℕ) → IsGiven a c n → AreApart c n b len

pub le-scaled : (x s : ℕ) → 0 < s → x ≤ x * s
le-scaled x s h = let t : x * 1 ≤ x * s = mul-le-mul (omega arith) h in omega (arith, t)

pub size_fits :
    (size count n : ℕ)
    → IsRequest size count n
    → (bytes size n ≡ n * size)
      × (bytes size (max n count) ≡ max n count * size)
      × (bytes size (max n count * size) ≡ max n count * size * size)
      × (n * size ≤ max n count * size * size)
size_fits size count n (p, l) =
    let m = max n count in
    let a : n * size ≤ m * size = mul-le-mul (omega arith) (omega arith) in
    let b : m * size ≤ m * size * size = le-scaled (m * size) size p in
    (omega (arith, a, b, l), omega (arith, b, l), omega (arith, l), omega (arith, a, b))

allocate_back-IsAllocated :
    (size n : ℕ) (a : Allocator)
    → bytes size n ≡ n * size
    → a.back.capacity < 2 ^ 63
    → a.back.position + n * size ≤ a.back.capacity
    → IsAllocated (n * size) a (allocate_back size n a).0 (allocate_back size n a).1
unfolding allocate_back
allocate_back-IsAllocated size n a e c l = record {
  valid = (omega (arith, e, l), c);
  within = (refl, l);
  given = inr (refl, omega (arith, e));
  kept = λ d m g. elim g [ inl h ↦ inl h | inr (h, k) ↦ inr (h, omega (arith, k)) ];
  apart = λ d m g. elim g [ inl h ↦ inl (λ q. omega (arith, h, q)) | inr (h, k) ↦ inr (inl k) ];
}

allocate_here :
    (size count n : ℕ) (a : Allocator)
    → has_space_for size n a.back ≡ true
    → allocate size count n a ≡ allocate_back size n a
unfolding allocate
allocate_here size count n a h = rw h

allocate_new :
    (size count n : ℕ) (a : Allocator)
    → has_space_for size n a.back ≡ false
    → allocate size count n a ≡ allocate_back size n (add_new_pool size count n a)
unfolding allocate
allocate_new size count n a h = rw h

space_left :
    (size n : ℕ) (p : Pool)
    → bytes size n ≡ n * size
    → n * size < 2 ^ 63
    → p.position ≤ p.capacity
    → p.capacity < 2 ^ 63
    → has_space_for size n p ≡ true
    → p.position + n * size ≤ p.capacity
unfolding has_space_for
space_left size n p e l i c h =
    let m : (p.position + n * size) % 2 ^ 64 ≡ p.position + n * size = omega (arith, l, i, c) in
    let k : (p.position + bytes size n) % 2 ^ 64 ≤ p.capacity = ground (arith, h) in
    omega (arith, k, m, ap (λ x. (p.position + x) % 2 ^ 64) e)

earlier-IsGiven :
    (size count n : ℕ) (a : Allocator) (b : Address) (len : ℕ)
    → IsGiven a b len
    → IsGiven (add_new_pool size count n a) b len
unfolding add_new_pool
earlier-IsGiven size count n a b len (inl h) =
    inl (omega (arith, h, length-append a.older (a.back ∷ [])))
earlier-IsGiven size count n a b len (inr (h, k)) =
    inl (omega (arith, h, length-append a.older (a.back ∷ [])))

new_pool_fits :
    (size count n : ℕ) (a : Allocator)
    → IsRequest size count n
    → ((add_new_pool size count n a).back.capacity < 2 ^ 64)
      × ((add_new_pool size count n a).back.position + n * size
          ≤ (add_new_pool size count n a).back.capacity)
      × ((add_new_pool size count n a).back.capacity < 2 ^ 63)
unfolding add_new_pool
new_pool_fits size count n a r =
    let (e, f, g, l) = size_fits size count n r in
    let c : bytes size (bytes size (max n count)) ≡ max n count * size * size =
      ap (bytes size) f ∙ g in
    (omega (arith, c, r.1), omega (arith, c, l), omega (arith, c, r.1))

-- A valid allocator gives out a block that lies in its pool and is apart from every block that it gave
-- out before, when the request, or a new pool for it, takes less than 2^63 bytes.
pub allocate-IsAllocated :
    (size count n : ℕ) (a : Allocator)
    → IsAllocator a
    → IsRequest size count n
    → IsAllocated (n * size) a (allocate size count n a).0 (allocate size count n a).1
allocate-IsAllocated size count n a (i, j) r =
    let (e, f, g, l) = size_fits size count n r in
    elim (Bool-cases (has_space_for size n a.back)) [
      | inl s ↦ rw (allocate_here size count n a s) (
          allocate_back-IsAllocated size n a e j
            (space_left size n a.back e (omega (arith, l, r.1)) i j s))
      | inr s ↦
          let b = add_new_pool size count n a in
          let (_, k, m) = new_pool_fits size count n a r in
          let w = allocate_back-IsAllocated size n b e m k in
          rw (allocate_new size count n a s) (record {
            valid = w.valid;
            within = w.within;
            given = w.given;
            kept = λ c len q. w.kept c len (earlier-IsGiven size count n a c len q);
            apart = λ c len q. w.apart c len (earlier-IsGiven size count n a c len q);
          })
    ]

abbrev pub IsApartFrom : Address → ℕ → List (Address × ℕ) → Type 0
IsApartFrom b m [] = Unit
IsApartFrom b m ((c, n) ∷ blocks) = AreApart b m c n × IsApartFrom b m blocks

-- Every block of a list is apart from the blocks after it.
abbrev pub AreAllApart : List (Address × ℕ) → Type 0
AreAllApart [] = Unit
AreAllApart ((b, m) ∷ blocks) = IsApartFrom b m blocks × AreAllApart blocks

abbrev pub AreRequests : ℕ → ℕ → List ℕ → Type 0
AreRequests size count [] = Unit
AreRequests size count (n ∷ requests) = IsRequest size count n × AreRequests size count requests

allocate_all-IsApartFrom :
    (size count : ℕ) (requests : List ℕ) (a : Allocator) (b : Address) (m : ℕ)
    → IsAllocator a
    → AreRequests size count requests
    → IsGiven a b m
    → IsApartFrom b m (allocate_all size count requests a)
unfolding allocate_all
allocate_all-IsApartFrom size count [] a b m i r g = tt
allocate_all-IsApartFrom size count (n ∷ requests) a b m i r g =
    let w = allocate-IsAllocated size count n a i r.0 in
    (
      w.apart b m g,
      allocate_all-IsApartFrom size count requests (allocate size count n a).1 b m w.valid r.1
          (w.kept b m g),
    )

pub blocks_apart :
    (size count : ℕ) (requests : List ℕ) (a : Allocator)
    → IsAllocator a
    → AreRequests size count requests
    → AreAllApart (allocate_all size count requests a)
unfolding allocate_all
blocks_apart size count [] a i r = tt
blocks_apart size count (n ∷ requests) a i r =
    let w = allocate-IsAllocated size count n a i r.0 in
    (
      allocate_all-IsApartFrom size count requests (allocate size count n a).1
          (allocate size count n a).0 (n * size) w.valid r.1 w.given,
      blocks_apart size count requests (allocate size count n a).1 w.valid r.1,
    )

-- A request whose size in bytes is a multiple of 2^64 leaves a valid allocator as it is, so that
-- the byte it is given is given out again.
allocate-wrapped :
    (size count n : ℕ) (a : Allocator)
    → IsAllocator a
    → (n * size) % 2 ^ 64 ≡ 0
    → (allocate size count n a).1 ≡ a
unfolding allocate has_space_for allocate_back
allocate-wrapped size count n a (i, j) e =
    let m : (a.back.position + 0) % 2 ^ 64 ≡ a.back.position = omega (arith, i, j) in
    ground (arith, e, m, i)
