-- ===== src/Container/Growth.antt =====
-- A container that holds a list, before and after it grows.
use native.Mathlib.Nat.{mul-le-mul, add-mul}
use native.Mathlib.Decide.{ℕ_discrete}
use cpp.Prelude.{
  true, ℕ, zero, suc, ◌+◌, ◌*◌, ◌%◌, ◌^◌, ◌≤◌, ◌<◌, ◌≡◌, ◌⊎◌, inl, inr, refl, ap, sym, ◌∙◌,
  Bool-cases, some, List, [], ◌∷◌, ◌++◌, arith, ltb, length, length-append, get_elem?, max,
}
use cpp.Prelude.Result.{ok}
use cpp.Allocator.{Address, allocate}
use cpp.Allocator.Blocks.{
  le-scaled, size_fits, IsAllocator, IsRequest, IsGiven, allocate-IsAllocated,
}
use cpp.Container.{Container, element, make_storage, grow_to, maybe_grow, write_next}
use cpp.Container.{is_accessible}
use cpp.Container.Access.{allocated-accessible, allocate-accessible}
use cpp.Container.Memory.{HoldsFirst, next-HoldsFirst, copy_elements-HoldsFirst}

-- The storage is an array that the allocator has given out; the elements of the list stand in it.
pub record HasStorage (width : ℕ) (xs : List ℕ) (c : Container) : Type 0 where
  pub block : Address
  pub storage : c.storage ≡ some block
  pub position : c.position ≡ some (element width block c.size)
  pub given : IsGiven c.allocator block (c.capacity * width)
  pub accessible :
      (j : ℕ)
      → j < c.capacity
      → is_accessible width c.allocator c.blocks (element width block j) ≡ true
  pub holds : HoldsFirst width (length xs) xs block c.memory

-- A container that holds a list.
pub record IsContainer (width : ℕ) (xs : List ℕ) (c : Container) : Type 0 where
  pub size : c.size ≡ length xs
  pub fits : c.size ≤ c.capacity
  pub valid : IsAllocator c.allocator
  pub storage : (c.capacity ≡ 0) ⊎ HasStorage width xs c

pub IsRequest-le : (width count m n : ℕ) → m ≤ n → IsRequest width count n → IsRequest width count m
IsRequest-le width count m n l (p, r) =
    let a : max m count * width ≤ max n count * width =
      mul-le-mul (omega (arith, l)) (omega arith) in
    let b : max m count * width * width ≤ max n count * width * width =
      mul-le-mul a (omega arith) in
    (p, omega (arith, b, r))

element-zero : (width : ℕ) (b : Address) → b ≡ element width b 0
element-zero width b =
    let e : b.offset ≡ b.offset + 0 * width = omega arith in ap (λ o. record b { offset = o }) e

element-next :
    (width i : ℕ) (b : Address) → element width (element width b i) 1 ≡ element width b (i + 1)
element-next width i b =
    let e : b.offset + i * width + 1 * width ≡ b.offset + (i + 1) * width =
      omega (arith, add-mul i 1 width) in
    ap (λ o. record b { offset = o }) e

make_storage-IsContainer :
    (width count : ℕ) (xs : List ℕ) (c : Container)
    → IsContainer width xs c
    → c.size ≡ 0
    → IsRequest width count 1
    → IsContainer width xs (make_storage width count c)
      × HasStorage width xs (make_storage width count c)
unfolding make_storage
make_storage-IsContainer width count xs c i z r =
    let w = allocate-IsAllocated width count 1 c.allocator i.valid r in
    let b = (allocate width count 1 c.allocator).0 in
    let s : HasStorage width xs (make_storage width count c) = record {
      block = b;
      storage = refl;
      position = ap some (element-zero width b ∙ ap (element width b) (sym z));
      given = w.given;
      accessible = λ j l.
          allocated-accessible width 1 j c.allocator (allocate width count 1 c.allocator).1 b
            c.blocks w l;
      holds = λ j x l. absurd (omega (arith, l, i.size, z));
    } in
    (record { size = i.size; fits = omega (arith, z); valid = w.valid; storage = inr s }, s)

grow_to-IsContainer :
    (width count : ℕ) (xs : List ℕ) (c : Container) (s : HasStorage width xs c)
    → IsContainer width xs c
    → IsRequest width count (c.capacity * 2)
    → (c' : Container) × (grow_to width count (c.capacity * 2) c.storage c ≡ ok c')
      × IsContainer width xs c'
      × HasStorage width xs c'
      × (c'.size ≡ c.size)
      × (c'.capacity ≡ c.capacity * 2)
unfolding grow_to
grow_to-IsContainer width count xs c s i r =
    let n = c.capacity * 2 in
    let w = allocate-IsAllocated width count n c.allocator i.valid r in
    let new = (allocate width count n c.allocator).0 in
    let a = (allocate width count n c.allocator).1 in
    let blocks : List (Address × ℕ) = (new, n * width) ∷ c.blocks in
    let v : (j : ℕ) → j < n → is_accessible width a blocks (element width new j) ≡ true =
      λ j l. allocated-accessible width n j c.allocator a new c.blocks w l in
    let u : (j : ℕ)
        → j < c.capacity
        → is_accessible width a blocks (element width s.block j) ≡ true =
      λ j l.
        allocate-accessible width width count n c.allocator c.blocks (new, n * width)
          (element width s.block j) (s.accessible j l) in
    let (memory, f, h) =
      copy_elements-HoldsFirst (is_accessible width a blocks) width c.size 0 c.capacity n xs s.block
        new c.memory r.0 (omega (arith, i.size)) (omega (arith, i.size, i.fits)) (omega arith)
        (w.apart s.block (c.capacity * width) s.given) u v s.holds
        (λ j x l. absurd (omega (arith, l))) in
    let c' : Container = record c {
      allocator = a;
      blocks = blocks;
      memory = memory;
      storage = some new;
      position = some (element width new c.size);
      capacity = n;
    } in
    let t : HasStorage width xs c' = record {
      block = new;
      storage = refl;
      position = refl;
      given = w.given;
      accessible = v;
      holds = h;
    } in
    let j : IsContainer width xs c' = record {
      size = i.size;
      fits = omega (arith, i.fits);
      valid = w.valid;
      storage = inr t;
    } in
    (c', rw (s.storage, f) refl, j, t, refl, refl)

-- With room for another element, and an array.
abbrev pub HasRoom : ℕ → List ℕ → Container → Type 0
HasRoom width xs c = IsContainer width xs c × HasStorage width xs c × (c.size < c.capacity)

storage-room :
    (width count : ℕ) (c : Container)
    → c.size ≡ 0
    → (make_storage width count c).size < (make_storage width count c).capacity
unfolding make_storage
storage-room width count c e = omega (arith, e)

doubled :
    (width count : ℕ) (c : Container)
    → IsRequest width count (c.capacity * 2)
    → (c.capacity * 2) % 2 ^ 64 ≡ c.capacity * 2
doubled width count c q =
    let (_, _, _, l) = size_fits width count (c.capacity * 2) q in
    omega (arith, l, q.1, le-scaled (c.capacity * 2) width q.0)

pub maybe_grow-HasRoom :
    (width count : ℕ) (xs : List ℕ) (c : Container)
    → IsContainer width xs c
    → IsRequest width count (length xs * 2 + 1)
    → (c' : Container) × (maybe_grow width count c ≡ ok c') × HasRoom width xs c'
unfolding maybe_grow
maybe_grow-HasRoom width count xs c i r = elim (ℕ_discrete c.capacity 0) [
  | yes z ↦
      let e : c.size ≡ 0 = omega (arith, z, i.fits) in
      let q = IsRequest-le width count 1 (length xs * 2 + 1) (omega arith) r in
      let (j, t) = make_storage-IsContainer width count xs c i e q in
      (make_storage width count c, ground (arith, z), (j, t, storage-room width count c e))
  | no z ↦ elim i.storage [
    | inl e ↦ absurd (z e)
    | inr s ↦ elim (Bool-cases (ltb c.size c.capacity)) [
      | inl l ↦ (c, ground (arith, l), (i, s, ground (arith, l)))
      | inr l ↦
          let q =
            IsRequest-le width count (c.capacity * 2) (length xs * 2 + 1)
              (ground (arith, l, i.fits, i.size)) r in
          let (c', e, j, t, f, g) = grow_to-IsContainer width count xs c s i q in
          let m = doubled width count c q in
          (c', ground (arith, l, z, m, e), (j, t, omega (arith, f, g, z, i.fits)))
    ]
  ]
]

get_elem?-last : (xs : List ℕ) (x : ℕ) → get_elem? (xs ++ x ∷ []) (length xs) ≡ some x
get_elem?-last [] x = refl
get_elem?-last (y ∷ xs) x = get_elem?-last xs x

get_elem?-first : (xs ys : List ℕ) (i : ℕ) → i < length xs → get_elem? (xs ++ ys) i ≡ get_elem? xs i
get_elem?-first [] ys i h = absurd (omega (arith, h))
get_elem?-first (x ∷ xs) ys zero h = refl
get_elem?-first (x ∷ xs) ys (suc i) h = get_elem?-first xs ys i (omega (arith, h))

pub write_next-IsContainer :
    (width x : ℕ) (xs : List ℕ) (c : Container)
    → 0 < width
    → HasRoom width xs c
    → (c' : Container) × (write_next width x c.position c ≡ ok c')
      × IsContainer width (xs ++ x ∷ []) c'
unfolding write_next
write_next-IsContainer width x xs c p (i, s, l) =
    let place = element width s.block c.size in
    let c' : Container = record c {
      memory = (place, x) ∷ c.memory;
      position = some (element width place 1);
      size = c.size + 1;
    } in
    let e : length (xs ++ x ∷ []) ≡ length xs + 1 = length-append xs (x ∷ []) in
    let h : HoldsFirst width (length xs + 1) (xs ++ x ∷ []) s.block
        ((element width s.block (length xs), x) ∷ c.memory) =
      next-HoldsFirst width (length xs) x (xs ++ x ∷ []) s.block c.memory p (get_elem?-last xs x)
        (λ j y m q. s.holds j y m (sym (get_elem?-first xs (x ∷ []) j m) ∙ q)) in
    let t : HasStorage width (xs ++ x ∷ []) c' = record {
      block = s.block;
      storage = s.storage;
      position = ap some (element-next width c.size s.block);
      given = s.given;
      accessible = s.accessible;
      holds = rw (e, i.size) h;
    } in
    (
      c',
      rw (s.position, s.accessible c.size l) refl,
      record {
        size = omega (arith, i.size, e);
        fits = omega (arith, l);
        valid = i.valid;
        storage = inr t;
      },
    )
