-- ===== src/Prelude/OrdMap.antt =====
-- `std::map` with numeric keys: the pairs in the order of their keys, as an iteration sees them.
use cpp.Prelude.Tests.{ltb, ◌==◌, if◌then◌else◌}
use Prim.Native.Nat.{ℕ, ◌≤◌, ◌<◌}
use mathlib.Core.Path.{◌≡◌, refl}
use mathlib.Core.List.{List, [], ◌∷◌}
use mathlib.Core.Option.{Option, none, some}
use native.Mathlib.Omega.{arith}

abbrev pub OrdMap {ℓ} : Type ℓ → Type ℓ
OrdMap V = List (ℕ × V)

module _ {ℓ} {V : Type ℓ} where
  -- `find`, with `none` for `end()`.
  unfoldable pub find : ℕ → OrdMap V → Option V
  find k [] = none
  find k ((j, v) ∷ m) = if k == j then some v else find k m

  -- `m[k] = v`: replaces the value at `k`, or inserts it at its place.
  unfoldable pub assign : ℕ → V → OrdMap V → OrdMap V
  assign k v [] = (k, v) ∷ []
  assign k v ((j, w) ∷ m) =
      let rest = assign k v m in
      if k == j then (k, v) ∷ m else if ltb k j then (k, v) ∷ (j, w) ∷ m else (j, w) ∷ rest

  -- Every key is above `k`.
  abbrev pub Above : ℕ → OrdMap V → Type 0
  Above k [] = Unit
  Above k ((j, v) ∷ m) = (k < j) × Above k m

  -- The keys ascend strictly, so that no key occurs twice.
  abbrev pub Ascending : OrdMap V → Type 0
  Ascending [] = Unit
  Ascending ((j, v) ∷ m) = Above j m × Ascending m

  pub find-assign :
      (j k : ℕ) (v : V) (m : OrdMap V)
      → find j (assign k v m) ≡ (if j == k then some v else find j m)
  unfolding find assign
  find-assign j k v [] = refl
  find-assign j k v ((i, w) ∷ m) = ground (arith, find-assign j k v m)

  pub Above-assign : (i k : ℕ) (v : V) (m : OrdMap V) → i < k → Above i m → Above i (assign k v m)
  unfolding assign
  Above-assign i k v [] h a = (h, tt)
  Above-assign i k v ((j, w) ∷ m) h a = ground (arith, Above-assign i k v m)

  Above-le : (i k : ℕ) (m : OrdMap V) → i ≤ k → Above k m → Above i m
  Above-le i k [] h a = tt
  Above-le i k ((j, w) ∷ m) h a = (omega arith, Above-le i k m h a.1)

  pub assign-Ascending : (k : ℕ) (v : V) (m : OrdMap V) → Ascending m → Ascending (assign k v m)
  unfolding assign
  assign-Ascending k v [] h = (tt, tt)
  assign-Ascending k v ((j, w) ∷ m) h =
      ground (arith, assign-Ascending k v m, Above-assign j k v m, Above-le k j m)

  pub Above-find : (k : ℕ) (m : OrdMap V) → Above k m → find k m ≡ none
  unfolding find
  Above-find k [] a = refl
  Above-find k ((j, w) ∷ m) a = ground (arith, Above-find k m)

  pub find-Above : (i k : ℕ) (v : V) (m : OrdMap V) → Above i m → find k m ≡ some v → i < k
  unfolding find
  find-Above i k v [] a e = absurd (ground (arith, e))
  find-Above i k v ((j, w) ∷ m) a e = ground (arith, find-Above i k v m a.1)

  -- `P` holds of every value.
  abbrev pub AllValues {κ} : (V → Type κ) → OrdMap V → Type κ
  AllValues P [] = Unit
  AllValues P ((j, v) ∷ m) = P v × AllValues P m

  pub AllValues-find {κ} :
      (P : V → Type κ) (m : OrdMap V)
      → Ascending m
      → ((k : ℕ) (v : V) → find k m ≡ some v → P v)
      → AllValues P m
  unfolding find
  AllValues-find P [] a h = tt
  AllValues-find P ((j, w) ∷ m) a h = (
    h j w (ground arith),
    AllValues-find P m a.1 (λ k v e. h k v (ground (arith, find-Above j k v m a.0 e))),
  )

module _ {ℓ κ} {V : Type ℓ} {W : Type κ} where
  -- The entries for which `f` gives a value, with that value.
  unfoldable pub choose : (ℕ → V → Option W) → OrdMap V → OrdMap W
  choose f [] = []
  choose f ((k, v) ∷ m) = elim (f k v) [ none ↦ choose f m | some w ↦ (k, w) ∷ choose f m ]

  abbrev pub chosen : (ℕ → V → Option W) → ℕ → Option V → Option W
  chosen f k none = none
  chosen f k (some v) = f k v

  Above-choose : (i : ℕ) (f : ℕ → V → Option W) (m : OrdMap V) → Above i m → Above i (choose f m)
  unfolding choose
  Above-choose i f [] a = tt
  Above-choose i f ((k, v) ∷ m) a = ground (arith, Above-choose i f m)

  pub choose-Ascending :
      (f : ℕ → V → Option W) (m : OrdMap V) → Ascending m → Ascending (choose f m)
  unfolding choose
  choose-Ascending f [] a = tt
  choose-Ascending f ((k, v) ∷ m) a = ground (arith, choose-Ascending f m, Above-choose k f m)

  pub find-choose :
      (j : ℕ) (f : ℕ → V → Option W) (m : OrdMap V)
      → Ascending m
      → find j (choose f m) ≡ chosen f j (find j m)
  unfolding choose find
  find-choose j f [] a = refl
  find-choose j f ((k, v) ∷ m) a =
      ground (
        arith,
        find-choose j f m,
        Above-find k m a.0,
        Above-find k (choose f m),
        Above-choose k f m,
      )
