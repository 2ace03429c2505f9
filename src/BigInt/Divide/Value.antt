-- ===== src/BigInt/Divide/Value.antt =====
-- The value of quotients and remainders.
use mathlib.Core.Path.{subst}
use mathlib.Core.List.{reverse, reverse-append}
use native.Mathlib.Nat.{add-mul, mul_assoc}
use cpp.Prelude.{
  ℕ, zero, suc, ◌+◌, ◌*◌, ◌≤◌, ◌<◌, ◌≡◌, inl, inr, refl, ap, ◌∙◌, true, false, Bool-cases, List, [],
  ◌∷◌, ◌++◌, arith, str_eq, str_eq_iff,
}
use cpp.Prelude.Result.{ok}
use cpp.BigInt.{BigInt, of_unsigned, is_null, less, subtract}
use cpp.BigInt.Digits.{value, AllDigits, EndsNonzero, IsNumber, IsNumber-AllDigits}
use cpp.BigInt.Order.{less-lt}
use cpp.BigInt.Sums.{subtract-IsNumber}
use cpp.BigInt.Steps.{of_unsigned-IsNumber}
use cpp.BigInt.Multiply.{multiply}
use cpp.BigInt.Divide.{push_low, bring_down, guess, long_division, divide_digits, divide, modulo}
use cpp.BigInt.Divide.Guess.{push_low-IsNumber, times-IsNumber, guess-greatest}

-- The value of `v` followed by digits, the highest one first.
unfoldable pub horner : ℕ → List ℕ → ℕ
horner v [] = v
horner v (d ∷ digits) = horner (v * 10 + d) digits

horner-append : (v : ℕ) (xs ys : List ℕ) → horner v (xs ++ ys) ≡ horner (horner v xs) ys
unfolding horner
horner-append v [] ys = refl
horner-append v (x ∷ xs) ys = horner-append (v * 10 + x) xs ys

horner-reverse : (a : BigInt) → horner 0 (reverse a) ≡ value a
unfolding horner value
horner-reverse [] = refl
horner-reverse (d ∷ a) =
    rw (reverse-append (d ∷ []) a)
      (rw (horner-append 0 (reverse a) (d ∷ [])) (omega (arith, horner-reverse a)))

AllDigits-append : (xs ys : List ℕ) → AllDigits xs → AllDigits ys → AllDigits (xs ++ ys)
AllDigits-append [] ys h g = g
AllDigits-append (x ∷ xs) ys h g = (h.0, AllDigits-append xs ys h.1 g)

pub AllDigits-reverse : (a : BigInt) → AllDigits a → AllDigits (reverse a)
AllDigits-reverse [] h = tt
AllDigits-reverse (d ∷ a) h =
    rw (reverse-append (d ∷ []) a)
      (AllDigits-append (reverse a) (d ∷ []) (AllDigits-reverse a h.1) (h.0, tt))

-- A remainder in the division by `b`.
abbrev pub IsRest : BigInt → BigInt → Type 0
IsRest t b = IsNumber t × (value t < value b)

division-step :
    (t b : BigInt) (d : ℕ)
    → IsNumber b
    → IsRest t b
    → d < 10
    → (rest : BigInt) × (subtract
          (push_low t d)
          (multiply (of_unsigned (guess 9 b (push_low t d))) b)
        ≡ ok rest)
      × IsRest rest b
      × (guess 9 b (push_low t d) * value b + value rest ≡ value t * 10 + d)
      × (guess 9 b (push_low t d) < 10)
division-step t b d h r l =
    let (p, e) = push_low-IsNumber t d r.0 in
    let (u, v, w) = guess-greatest 9 b (push_low t d) h p (omega (arith, e, r.1)) in
    let cc = guess 9 b (push_low t d) in
    let (m, f) = times-IsNumber cc b h in
    let (rest, s, n, x) =
      subtract-IsNumber (push_low t d) (multiply (of_unsigned cc) b) p m (omega (arith, f, v)) in
    (
      rest,
      s,
      (n, omega (arith, x, f, w, add-mul cc 1 (value b))),
      omega (arith, x, f, e),
      omega (arith, u),
    )

bring_down-lem :
    (t : BigInt) (digits : List ℕ) (b : BigInt)
    → IsNumber b
    → IsRest t b
    → AllDigits digits
    → value b ≤ horner (value t) digits
    → (t' : BigInt) × (d : ℕ) × (left : List ℕ) × (bring_down t digits b ≡ ok (t', d ∷ left))
      × IsRest t' b
      × AllDigits (d ∷ left)
      × (horner (value t') (d ∷ left) ≡ horner (value t) digits)
      × (value b ≤ value t' * 10 + d)
unfolding bring_down horner
bring_down-lem t [] b h r a l = absurd (omega (arith, r.1, l))
bring_down-lem t (d ∷ digits) b h r a l =
    let (p, e) = push_low-IsNumber t d r.0 in
    elim (Bool-cases (less (push_low t d) b)) [
      | inl lt ↦
          let u : value (push_low t d) < value b = (less-lt (push_low t d) b p h).0 lt in
          let (t', c, left, f, g, i, j, k) =
            bring_down-lem (push_low t d) digits b h (p, u) a.1 (rw e l) in
          (t', c, left, rw lt f, g, i, j ∙ rw e, k)
      | inr ge ↦
          (t, d, digits, rw ge, r, a, refl, ground (arith, ge, e, less-lt (push_low t d) b p h))
    ]

EndsNonzero-cons : (d : ℕ) (a : BigInt) → EndsNonzero a → EndsNonzero (d ∷ a)
EndsNonzero-cons d [] h = absurd (omega arith)
EndsNonzero-cons d (e ∷ a) h = h

-- One more digit of the quotient keeps the sum of product and remainder.
step_sum :
    (cc q b t d r : ℕ) → cc * b + r ≡ t * 10 + d → (cc + 10 * q) * b + r ≡ (q * b + t) * 10 + d
step_sum cc q b t d r h = omega (arith, h, add-mul cc (10 * q) b, mul_assoc 10 q b)

long_division-lem :
    (t : BigInt) (digits : List ℕ) (b cat : BigInt)
    → IsNumber b
    → IsRest t b
    → AllDigits digits
    → AllDigits cat
    → (q : BigInt) × (r : BigInt) × (long_division t digits b cat ≡ ok (q, r))
      × IsRest r b
      × AllDigits q
      × (EndsNonzero cat → EndsNonzero q)
      × (value q * value b + value r ≡ horner (value cat * value b + value t) digits)
unfolding long_division horner
long_division-lem t [] b cat h r a c = (cat, t, refl, r, c, (λ x. x), refl)
long_division-lem t (d ∷ digits) b cat h r a c =
    let (rest, s, r', e, l) = division-step t b d h r a.0 in
    let cc = guess 9 b (push_low t d) in
    let (q, last, f, i, j, k, m) = long_division-lem rest digits b (cc ∷ cat) h r' a.1 (l, c) in
    (
      q,
      last,
      rw s f,
      i,
      j,
      (λ x. k (EndsNonzero-cons cc cat x)),
      m
          ∙ ap (λ v. horner v digits)
              (unfold value in step_sum cc (value cat) (value b) (value t) d (value rest) e),
    )

ends-IsNumber : (a : BigInt) → AllDigits a → EndsNonzero a → IsNumber a
ends-IsNumber [] g h = h
ends-IsNumber (d ∷ []) g h = g.0
ends-IsNumber (d ∷ e ∷ a) g h = (g, h)

-- A quotient and a remainder.
abbrev pub IsQuotient : BigInt → BigInt → BigInt → BigInt → Type 0
IsQuotient a b q r =
    IsNumber q × IsNumber r × (value q * value b + value r ≡ value a) × (value r < value b)

first_digit : (cc b r t d : ℕ) → cc * b + r ≡ t * 10 + d → b ≤ t * 10 + d → r < b → 0 < cc
first_digit zero b r t d e h l = absurd (omega (arith, e))
first_digit (suc cc) b r t d e h l = omega arith

divide_digits-lem :
    (a b : BigInt)
    → IsNumber a
    → IsNumber b
    → 0 < value b
    → value b ≤ value a
    → (q : BigInt) × (r : BigInt) × (divide_digits a b ≡ ok (q, r)) × IsQuotient a b q r
unfolding divide_digits
divide_digits-lem a b g h p l =
    let (zero_number, z) = of_unsigned-IsNumber 0 in
    let e : horner (value (of_unsigned 0)) (reverse a) ≡ value a = rw z (horner-reverse a) in
    let (t, d, left, f, i, j, k, m) =
      bring_down-lem (of_unsigned 0) (reverse a) b h (zero_number, omega (arith, z))
        (AllDigits-reverse a (IsNumber-AllDigits a g)) (omega (arith, e)) in
    let (rest, s, r', x, y) = division-step t b d h i j.0 in
    let cc = guess 9 b (push_low t d) in
    let (q, r, u, v, w, n, o) = long_division-lem rest left b (cc ∷ []) h r' j.1 (y, tt) in
    let c : value (cc ∷ []) * value b + value rest ≡ value t * 10 + d =
      unfold value in omega (arith, step_sum cc 0 (value b) (value t) d (value rest) x) in
    let k' : horner (value t * 10 + d) left ≡ horner (value (of_unsigned 0)) (reverse a) =
      unfold horner in k in
    let total : value q * value b + value r ≡ value a =
      o ∙ (ap (λ v. horner v left) c ∙ (k' ∙ e)) in
    let top : 0 < cc = first_digit cc (value b) (value rest) (value t) d x m r'.1 in
    (q, r, rw f (unfold long_division in rw s u), (ends-IsNumber q w (n top), v.0, total, v.1))

is_null-value : (b : BigInt) → IsNumber b → 0 < value b → is_null b ≡ false
unfolding value
is_null-value [] h l = absurd (omega arith)
is_null-value (d ∷ []) h l = ground (arith, l)
is_null-value (d ∷ e ∷ b) h l = refl

-- What both operators return.
abbrev pub Divides : BigInt → BigInt → Type 0
Divides a b =
    (q : BigInt) × (r : BigInt) × (divide a b ≡ ok q) × (modulo a b ≡ ok r) × IsQuotient a b q r

divide_less :
    (a b : BigInt)
    → IsNumber a
    → is_null b ≡ false
    → less a b ≡ true
    → value a < value b
    → Divides a b
unfolding divide modulo
divide_less a b g z lt l =
    let (n, e) = of_unsigned-IsNumber 0 in
    (of_unsigned 0, a, rw (z, lt), rw (z, lt), (n, g, rw e (omega arith), l))

divide_same : (a : BigInt) → is_null a ≡ false → less a a ≡ false → 0 < value a → Divides a a
unfolding divide modulo
divide_same a z ge l =
    let (n, e) = of_unsigned-IsNumber 1 in
    let (m, f) = of_unsigned-IsNumber 0 in
    let s = (str_eq_iff a a).1 refl in
    (
      of_unsigned 1,
      of_unsigned 0,
      rw (z, ge, s),
      rw (z, ge, s),
      (n, m, rw (e, f) (omega arith), omega (arith, f)),
    )

divide_long :
    (a b : BigInt)
    → IsNumber a
    → IsNumber b
    → 0 < value b
    → is_null b ≡ false
    → less a b ≡ false
    → str_eq a b ≡ false
    → value b ≤ value a
    → Divides a b
unfolding divide modulo
divide_long a b g h p z ge n l =
    let (q, r, f, i) = divide_digits-lem a b g h p l in
    (q, r, rw (z, ge, n, f), rw (z, ge, n, f), i)

-- For numbers without superfluous zeros, the divisor above zero, both operators return, and they
-- return such numbers: the quotient and the remainder of the division with remainder.
pub divide-Divides : (a b : BigInt) → IsNumber a → IsNumber b → 0 < value b → Divides a b
divide-Divides a b g h p =
    let z = is_null-value b h p in
    elim (Bool-cases (less a b)) [
      | inl lt ↦ divide_less a b g z lt ((less-lt a b g h).0 lt)
      | inr ge ↦ elim (Bool-cases (str_eq a b)) [
        | inl s ↦
            let e : a ≡ b = (str_eq_iff a b).0 s in
            subst (λ x. Divides a x) e (divide_same a (rw e z) (ground (arith, e, ge)) (rw e p))
        | inr n ↦ divide_long a b g h p z ge n (ground (arith, ge, less-lt a b g h))
      ]
    ]
