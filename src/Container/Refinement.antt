-- ===== src/Container/Refinement.antt =====
-- The container refines a list: what is pushed is read back.
use mathlib.Core.Path.{subst}
use mathlib.Core.List.{append_assoc, append-nil}
use cpp.Prelude.{
  ℕ, zero, suc, ◌+◌, ◌*◌, ◌≤◌, ◌<◌, ◌≡◌, inl, inr, refl, sym, Bool-cases, Option, none, some, List,
  [], ◌∷◌, ◌++◌, arith, leb, length, length-append, get_elem?,
}
use cpp.Prelude.Result.{Result, ok, throw, thrown_string, ◌>>=◌}
use cpp.Allocator.{Allocator}
use cpp.Allocator.Blocks.{IsAllocator, IsRequest}
use cpp.Container.{Container, read, element, make_container, push, read_element, at, const_at}
use cpp.Container.Memory.{get_elem?-lt}
use cpp.Container.Growth.{IsContainer, IsRequest-le, maybe_grow-HasRoom, write_next-IsContainer}

push-IsContainer :
    (width count x : ℕ) (xs : List ℕ) (c : Container)
    → IsContainer width xs c
    → IsRequest width count (length xs * 2 + 1)
    → (c' : Container) × (push width count x c ≡ ok c') × IsContainer width (xs ++ x ∷ []) c'
unfolding push
push-IsContainer width count x xs c i r =
    let (c1, e, h) = maybe_grow-HasRoom width count xs c i r in
    let (c2, f, j) = write_next-IsContainer width x xs c1 r.0 h in (c2, ground (arith, e, f), j)

-- Pushes, one after another.
unfoldable pub push_all : ℕ → ℕ → List ℕ → Container → Result Container
unfolding push
push_all width count [] c = ok c
push_all width count (x ∷ values) c = do c' ← push width count x c; push_all width count values c'

push_all-IsContainer :
    (width count : ℕ) (values xs : List ℕ) (c : Container)
    → IsContainer width xs c
    → IsRequest width count (length (xs ++ values) * 2 + 1)
    → (c' : Container) × (push_all width count values c ≡ ok c')
      × IsContainer width (xs ++ values) c'
unfolding push_all
push_all-IsContainer width count [] xs c i r =
    (c, refl, subst (λ l. IsContainer width l c) (sym (append-nil xs)) i)
push_all-IsContainer width count (x ∷ values) xs c i r =
    let q =
      IsRequest-le width count (length xs * 2 + 1) (length (xs ++ x ∷ values) * 2 + 1)
        (omega (arith, length-append xs (x ∷ values))) r in
    let (c1, e, j) = push-IsContainer width count x xs c i q in
    let same = append_assoc xs (x ∷ []) values in
    let (c2, f, k) =
      push_all-IsContainer width count values (xs ++ x ∷ []) c1 j
        (subst (λ l. IsRequest width count (length l * 2 + 1)) (sym same) r) in
    (c2, ground (arith, e, f), subst (λ l. IsContainer width l c2) same k)

get_elem?-beyond : (xs : List ℕ) (i : ℕ) → length xs ≤ i → get_elem? xs i ≡ none
get_elem?-beyond [] i h = refl
get_elem?-beyond (x ∷ xs) zero h = absurd (omega (arith, h))
get_elem?-beyond (x ∷ xs) (suc i) h = get_elem?-beyond xs i (omega (arith, h))

-- What the list has at an index.
abbrev pub lookup : Option ℕ → Result (Option ℕ)
lookup none = throw thrown_string
lookup (some x) = ok (some x)

const_at-lookup :
    (width ix : ℕ) (xs : List ℕ) (c : Container)
    → IsContainer width xs c
    → const_at width ix c ≡ lookup (get_elem? xs ix)
unfolding const_at read_element
const_at-lookup width ix xs c i = elim (Bool-cases (leb c.size ix)) [
  | inl l ↦ ground (arith, l, get_elem?-beyond xs ix (ground (arith, l, i.size)))
  | inr l ↦ elim i.storage [
    | inl z ↦ absurd (ground (arith, l, z, i.fits))
    | inr s ↦
        let k : ix < length xs = ground (arith, l, i.size) in
        let (x, e) = get_elem?-lt xs ix k in
        ground (
          arith,
          l,
          s.storage,
          e,
          s.holds ix x k e,
          s.accessible ix (omega (arith, k, i.size, i.fits)),
        )
  ]
]

make_container-IsContainer :
    (width count : ℕ) (a : Allocator) → IsAllocator a → IsContainer width [] (make_container a)
make_container-IsContainer width count a v = record {
  size = refl;
  fits = omega arith;
  valid = v;
  storage = inl refl;
}

-- From an empty container with a valid allocator, values are pushed without an exception, when twice
-- as many values and one more can be asked for; the container is then as long as the list of the
-- values, and the constant operator reads the list: its values, and beyond its end an exception.
pub push_all-lookup :
    (width count : ℕ) (values : List ℕ) (a : Allocator)
    → IsAllocator a
    → IsRequest width count (length values * 2 + 1)
    → (c : Container) × (push_all width count values (make_container a) ≡ ok c)
      × (c.size ≡ length values)
      × ((ix : ℕ) → const_at width ix c ≡ lookup (get_elem? values ix))
push_all-lookup width count values a v r =
    let (c, e, i) =
      push_all-IsContainer width count values [] (make_container a)
        (make_container-IsContainer width count a v) r in
    (c, e, i.size, λ ix. const_at-lookup width ix values c i)

-- The operator of a container that is not constant throws nothing between the size and the capacity.
pub at-beyond :
    (width ix : ℕ) (xs : List ℕ) (c : Container)
    → IsContainer width xs c
    → length xs ≤ ix
    → ix < c.capacity
    → (x : Option ℕ) × (at width ix c ≡ ok x)
unfolding at read_element
at-beyond width ix xs c i l k = elim i.storage [
  | inl z ↦ absurd (omega (arith, z, k))
  | inr s ↦
      (read (element width s.block ix) c.memory, ground (arith, k, s.storage, s.accessible ix k))
]
