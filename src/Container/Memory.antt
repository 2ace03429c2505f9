-- ===== src/Container/Memory.antt =====
-- Elements of arrays are apart from each other, and what is read after elements are copied.
use native.Mathlib.Nat.{mul-le-mul, add-mul}
use native.Mathlib.Decide.{dec_lt, ℕ_discrete}
use cpp.Prelude.{
  ℕ, zero, suc, ◌+◌, ◌*◌, ◌≤◌, ◌<◌, ◌≡◌, ◌≢◌, ◌⊎◌, inl, inr, refl, ◌∙◌, Bool, true, some, List, [],
  ◌∷◌, arith, length, get_elem?,
}
use cpp.Allocator.{Address}
use cpp.Allocator.Blocks.{AreApart}
use cpp.Prelude.Result.{ok}
use cpp.Container.{Memory, read, element, copy_elements}

abbrev pub Differ : Address → Address → Type 0
Differ a b = (a.pool ≢ b.pool) ⊎ (a.offset ≢ b.offset)

pub read_other :
    (a b : Address) (x : ℕ) (memory : Memory)
    → Differ a b
    → read a ((b, x) ∷ memory) ≡ read a memory
unfolding read
read_other a b x memory (inl d) = ground (arith, d)
read_other a b x memory (inr d) = ground (arith, d)

pub read_same : (a : Address) (x : ℕ) (memory : Memory) → read a ((a, x) ∷ memory) ≡ some x
unfolding read
read_same a x memory = ground arith

-- The element `i` ends where or before the element `j` begins.
pub before-lem : (width i j : ℕ) → i < j → i * width + width ≤ j * width
before-lem width i j l =
    let e : i + 1 ≤ j = omega (arith, l) in
    let m : (i + 1) * width ≤ j * width = mul-le-mul e (omega arith) in
    omega (arith, m, add-mul i 1 width)

pub same_array :
    (width i j : ℕ) (b : Address)
    → 0 < width
    → i ≢ j
    → Differ (element width b i) (element width b j)
same_array width i j b p n = elim (dec_lt i j) [
  | yes l ↦ inr (λ e. omega (arith, p, e, before-lem width i j l))
  | no g ↦ inr (λ e. omega (arith, p, e, before-lem width j i (omega (arith, g, n))))
]

pub other_array :
    (width i j m n : ℕ) (b c : Address)
    → 0 < width
    → i < m
    → j < n
    → AreApart b (m * width) c (n * width)
    → Differ (element width b i) (element width c j)
other_array width i j m n b c p l k (inl d) = inl d
other_array width i j m n b c p l k (inr (inl d)) =
    inr (λ e. omega (arith, p, e, d, before-lem width i m l))
other_array width i j m n b c p l k (inr (inr d)) =
    inr (λ e. omega (arith, p, e, d, before-lem width j n k))

-- The first `n` elements of a list stand in an array.
abbrev pub HoldsFirst : ℕ → ℕ → List ℕ → Address → Memory → Type 0
HoldsFirst width n xs b memory =
    (i x : ℕ) → i < n → get_elem? xs i ≡ some x → read (element width b i) memory ≡ some x

write-HoldsFirst :
    (width n i x : ℕ) (xs : List ℕ) (b c : Address) (memory : Memory)
    → ((j : ℕ) → j < n → Differ (element width b j) (element width c i))
    → HoldsFirst width n xs b memory
    → HoldsFirst width n xs b ((element width c i, x) ∷ memory)
write-HoldsFirst width n i x xs b c memory d h j y l e =
    read_other (element width b j) (element width c i) x memory (d j l) ∙ h j y l e

pub get_elem?-lt : (xs : List ℕ) (i : ℕ) → i < length xs → (x : ℕ) × (get_elem? xs i ≡ some x)
get_elem?-lt [] i h = absurd (omega (arith, h))
get_elem?-lt (x ∷ xs) zero h = (x, refl)
get_elem?-lt (x ∷ xs) (suc i) h = get_elem?-lt xs i (omega (arith, h))

pub next-HoldsFirst :
    (width i x : ℕ) (xs : List ℕ) (b : Address) (memory : Memory)
    → 0 < width
    → get_elem? xs i ≡ some x
    → HoldsFirst width i xs b memory
    → HoldsFirst width (i + 1) xs b ((element width b i, x) ∷ memory)
next-HoldsFirst width i x xs b memory p q g j y m s = elim (ℕ_discrete j i) [
  | yes e ↦
      let same : x ≡ y = ground (arith, q, e, s) in
      rw (e, same) (read_same (element width b i) y memory)
  | no n ↦
      read_other (element width b j) (element width b i) x memory (same_array width j i b p n)
      ∙ g j y (omega (arith, m, n)) s
]

copy_step :
    (accessible : Address → Bool) (width n i x : ℕ) (old new : Address) (memory : Memory)
    → accessible (element width old i) ≡ true
    → accessible (element width new i) ≡ true
    → read (element width old i) memory ≡ some x
    → copy_elements accessible width (suc n) old new i memory
      ≡ copy_elements accessible width n old new (i + 1) ((element width new i, x) ∷ memory)
unfolding copy_elements
copy_step accessible width n i x old new memory a b r = ground (arith, a, b, r)

-- Copying the elements from `i` on moves a list that stands in the old array to the new one.
pub copy_elements-HoldsFirst :
    (accessible : Address → Bool) (width n i limit new_limit : ℕ) (xs : List ℕ) (old new : Address)
    (memory : Memory)
    → 0 < width
    → i + n ≡ length xs
    → length xs ≤ limit
    → limit ≤ new_limit
    → AreApart old (limit * width) new (new_limit * width)
    → ((j : ℕ) → j < limit → accessible (element width old j) ≡ true)
    → ((j : ℕ) → j < new_limit → accessible (element width new j) ≡ true)
    → HoldsFirst width (length xs) xs old memory
    → HoldsFirst width i xs new memory
    → (memory' : Memory) × (copy_elements accessible width n old new i memory ≡ ok memory')
      × HoldsFirst width (length xs) xs new memory'
unfolding copy_elements
copy_elements-HoldsFirst accessible width zero i limit new_limit xs old new memory p e l k a u v h
      g =
    (memory, refl, λ j x m q. g j x (omega (arith, m, e)) q)
copy_elements-HoldsFirst accessible width (suc n) i limit new_limit xs old new memory p e l k a u v
      h g =
    let (x, q) = get_elem?-lt xs i (omega (arith, e)) in
    let r = h i x (omega (arith, e)) q in
    let next : Memory = (element width new i, x) ∷ memory in
    let h' =
      write-HoldsFirst width (length xs) i x xs old new memory
        (λ j m.
          other_array width j i limit new_limit old new p (omega (arith, m, l))
            (omega (arith, e, l, k)) a)
        h in
    let (memory', f, w) =
      copy_elements-HoldsFirst accessible width n (i + 1) limit new_limit xs old new next p
        (omega (arith, e)) l k a u v h' (next-HoldsFirst width i x xs new memory p q g) in
    let s =
      copy_step accessible width n i x old new memory (u i (omega (arith, e, l)))
        (v i (omega (arith, e, l, k))) r in
    (memory', s ∙ f, w)
