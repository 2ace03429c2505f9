-- ===== src/BigInt/Root/Bisection.antt =====
-- The bisection ends at the square root, rounded down.
use cpp.Prelude.{
  ℕ, zero, suc, ◌+◌, ◌*◌, ◌/◌, ◌≤◌, ◌<◌, ◌≡◌, inl, inr, ap, ◌∙◌, true, false, Bool-cases, some, [],
  ◌∷◌, arith, str_eq, str_eq_iff,
}
use cpp.Prelude.Result.{ok}
use cpp.BigInt.{BigInt, of_unsigned, less, add, subtract}
use cpp.BigInt.Digits.{value, AllDigits, IsNumber, IsNumber-AllDigits}
use cpp.BigInt.Order.{less-lt, value-injective}
use cpp.BigInt.Sums.{add-IsNumber, subtract-IsNumber}
use cpp.BigInt.Steps.{of_unsigned-IsNumber}
use cpp.BigInt.Multiply.{multiply}
use cpp.BigInt.Multiply.Value.{multiply-IsNumber}
use cpp.BigInt.Divide.{divide}
use cpp.BigInt.Divide.Value.{divide-Divides}
use cpp.BigInt.Root.{bisect, halvings, sqr_root}

-- 2 to the power of `n`
unfoldable pub doubled : ℕ → ℕ
doubled zero = 1
doubled (suc n) = 2 * doubled n

doubled-four : (n : ℕ) → doubled (4 + n) ≡ 16 * doubled n
unfolding doubled
doubled-four n = let e : 4 + n ≡ suc (suc (suc (suc n))) = omega arith in rw e (omega arith)

value-doubled : (a : BigInt) → AllDigits a → value a + 1 ≤ doubled (halvings a)
unfolding value doubled
value-doubled [] h = omega arith
value-doubled (d ∷ a) h = omega (arith, doubled-four (halvings a), value-doubled a h.1, h.0)

pub predecessor :
    (r : BigInt)
    → IsNumber r
    → 0 < value r
    → (last : BigInt) × (subtract r (of_unsigned 1) ≡ ok last)
      × IsNumber last
      × (value last + 1 ≡ value r)
predecessor r h l =
    let (n, e) = of_unsigned-IsNumber 1 in
    let (last, f, g, k) = subtract-IsNumber r (of_unsigned 1) h n (omega (arith, e)) in
    (last, f, g, omega (arith, e, k))

-- Half of a number, by the division.
pub half :
    (a : BigInt)
    → IsNumber a
    → (m : BigInt) × (divide a (of_unsigned 2) ≡ ok m) × IsNumber m × (value m ≡ value a / 2)
half a h =
    let (n, e) = of_unsigned-IsNumber 2 in
    let (m, r, f, g, i) = divide-Divides a (of_unsigned 2) h n (omega (arith, e)) in
    let k : value m * 2 + value r ≡ value a = rw (← e) i.2 in (m, f, i.0, omega (arith, k, e, i.3))

-- The square root of `y`, rounded down, as a result that is returned.
abbrev pub IsRoot : BigInt → BigInt → Type 0
IsRoot y m = IsNumber m × (value m * value m ≤ value y) × (value y < (value m + 1) * (value m + 1))

bisect-stop :
    (fuel : ℕ) (l r y last : BigInt)
    → subtract r (of_unsigned 1) ≡ ok last
    → str_eq l last ≡ true
    → bisect (suc fuel) l r y ≡ ok (some l)
unfolding bisect
bisect-stop fuel l r y last f s = ground (arith, f, s)

bisect-below :
    (fuel : ℕ) (l r y last m : BigInt)
    → subtract r (of_unsigned 1) ≡ ok last
    → str_eq l last ≡ false
    → divide (add l r) (of_unsigned 2) ≡ ok m
    → less y (multiply m m) ≡ true
    → bisect (suc fuel) l r y ≡ bisect fuel l m y
unfolding bisect
bisect-below fuel l r y last m f s g t = ground (arith, f, s, g, t)

bisect-above :
    (fuel : ℕ) (l r y last m : BigInt)
    → subtract r (of_unsigned 1) ≡ ok last
    → str_eq l last ≡ false
    → divide (add l r) (of_unsigned 2) ≡ ok m
    → less y (multiply m m) ≡ false
    → bisect (suc fuel) l r y ≡ bisect fuel m r y
unfolding bisect
bisect-above fuel l r y last m f s g t = ground (arith, f, s, g, t)

-- What the loop keeps: the root lies from `l` on and below `r`.
abbrev IsBracket : ℕ → BigInt → BigInt → BigInt → Type 0
IsBracket fuel l r y =
    IsNumber l
    × IsNumber r
    × (value l * value l ≤ value y)
    × (value y < value r * value r)
    × (value l < value r)
    × (value r ≤ value l + doubled fuel)

-- Different digits are different values.
apart :
    (l last r : BigInt)
    → IsNumber l
    → IsNumber last
    → str_eq l last ≡ false
    → value last + 1 ≡ value r
    → value l < value r
    → value l + 1 < value r
apart l last r h g s k o =
    ground (arith, value-injective l last h g, (str_eq_iff l last).1, k, o, s)

bisect-stopped :
    (fuel : ℕ) (l r y last : BigInt)
    → IsBracket fuel l r y
    → subtract r (of_unsigned 1) ≡ ok last
    → value last + 1 ≡ value r
    → str_eq l last ≡ true
    → (m : BigInt) × (bisect (suc fuel) l r y ≡ ok (some m)) × IsRoot y m
bisect-stopped fuel l r y last (hl, hr, p, q, o, b) f k s =
    let e : value l + 1 ≡ value r =
      ap (λ (x : ℕ). x + 1) (ap value ((str_eq_iff l last).0 s)) ∙ k in
    (l, bisect-stop fuel l r y last f s, (hl, p, rw e q))

middle :
    (l r : BigInt)
    → IsNumber l
    → IsNumber r
    → value l + 1 < value r
    → (m : BigInt) × (divide (add l r) (of_unsigned 2) ≡ ok m)
      × IsNumber m
      × (value m ≡ (value l + value r) / 2)
      × (value l < value m)
      × (value m < value r)
middle l r hl hr o =
    let (n, e) = add-IsNumber l r hl hr in
    let (m, f, g, k) = half (add l r) n in
    (m, f, g, omega (arith, k, e), omega (arith, k, e), omega (arith, k, e))

bisect-IsRoot :
    (fuel : ℕ) (l r y : BigInt)
    → IsNumber y
    → IsBracket fuel l r y
    → (m : BigInt) × (bisect (suc fuel) l r y ≡ ok (some m)) × IsRoot y m
bisect-IsRoot zero l r y hy (hl, hr, p, q, o, b) =
    let (last, f, g, k) = predecessor r hr (omega (arith, o)) in
    elim (Bool-cases (str_eq l last)) [
      | inl s ↦ bisect-stopped zero l r y last (hl, hr, p, q, o, b) f k s
      | inr s ↦ absurd (unfold doubled in omega (arith, apart l last r hl g s k o, b))
    ]
bisect-IsRoot (suc fuel) l r y hy (hl, hr, p, q, o, b) =
    let (last, f, g, k) = predecessor r hr (omega (arith, o)) in
    elim (Bool-cases (str_eq l last)) [
      | inl s ↦ bisect-stopped (suc fuel) l r y last (hl, hr, p, q, o, b) f k s
      | inr s ↦
          let (m, d, hm, e, lm, mr) = middle l r hl hr (apart l last r hl g s k o) in
          let (hs, sq) = multiply-IsNumber m m hm hm in
          let b' : value r ≤ value l + 2 * doubled fuel = unfold doubled in b in
          elim (Bool-cases (less y (multiply m m))) [
            | inl t ↦
                let u : value y < value m * value m =
                  rw (← sq) ((less-lt y (multiply m m) hy hs).0 t) in
                let (x, w, v) =
                  bisect-IsRoot fuel l m y hy (hl, hm, p, u, lm, omega (arith, b', e)) in
                (x, bisect-below (suc fuel) l r y last m f s d t ∙ w, v)
            | inr t ↦
                let u : value m * value m ≤ value y =
                  ground (arith, t, sq, less-lt y (multiply m m) hy hs) in
                let (x, w, v) =
                  bisect-IsRoot fuel m r y hy (hm, hr, u, q, mr, omega (arith, b', e)) in
                (x, bisect-above (suc fuel) l r y last m f s d t ∙ w, v)
          ]
    ]

lt-square : (y : ℕ) → y < (y + 1) * (y + 1)
lt-square y = grind arith

-- The square root of a number without superfluous zeros is returned: it is such a number, its square
-- is at most that number, and the square of its successor is more.
pub sqr_root-IsRoot :
    (y : BigInt) → IsNumber y → (m : BigInt) × (sqr_root y ≡ ok (some m)) × IsRoot y m
unfolding sqr_root
sqr_root-IsRoot y h =
    let (z, e) = of_unsigned-IsNumber 0 in
    let (o, f) = of_unsigned-IsNumber 1 in
    let (n, g) = add-IsNumber y (of_unsigned 1) h o in
    let s : value (add y (of_unsigned 1)) ≡ value y + 1 = omega (arith, g, f) in
    bisect-IsRoot (halvings y) (of_unsigned 0) (add y (of_unsigned 1)) y h (
      z,
      n,
      rw e (omega arith),
      rw s (lt-square (value y)),
      omega (arith, e, s),
      omega (arith, e, s, value-doubled y (IsNumber-AllDigits y h)),
    )
