-- ===== src/BigInt/Digits.antt =====
-- What the digits stand for, and which digits a number may have.
use cpp.Prelude.{
  ℕ, zero, suc, ◌+◌, ◌*◌, ◌/◌, ◌≤◌, ◌<◌, ◌≡◌, refl, [], ◌∷◌, ◌++◌, arith, length, replicate,
}
use cpp.BigInt.{BigInt, increment, add_digits, subtract_digits, pop_zeros, trim, halve_digits}

unfoldable pub value : BigInt → ℕ
value [] = 0
value (d ∷ a) = d + 10 * value a

abbrev pub AllDigits : BigInt → Type 0
AllDigits [] = Unit
AllDigits (d ∷ a) = (d < 10) × AllDigits a

-- The last digit is not zero.
abbrev pub EndsNonzero : BigInt → Type 0
EndsNonzero [] = 0 < 0
EndsNonzero (d ∷ []) = 0 < d
EndsNonzero (d ∷ e ∷ a) = EndsNonzero (e ∷ a)

-- Digits below 10 without a zero at the end, but for a single one.
abbrev pub IsNumber : BigInt → Type 0
IsNumber [] = 0 < 0
IsNumber (d ∷ []) = d < 10
IsNumber (d ∷ e ∷ a) = AllDigits (d ∷ e ∷ a) × EndsNonzero (e ∷ a)

pub IsNumber-AllDigits : (a : BigInt) → IsNumber a → AllDigits a
IsNumber-AllDigits [] h = tt
IsNumber-AllDigits (d ∷ []) h = (h, tt)
IsNumber-AllDigits (d ∷ e ∷ a) h = h.0

pub value-increment : (a : BigInt) → AllDigits a → value (increment a) ≡ value a + 1
unfolding value increment
value-increment [] h = refl
value-increment (d ∷ a) h = ground (arith, value-increment a h.1)

pub value-add_digits :
    (t : ℕ) (a b : BigInt) → length b ≤ length a → value (add_digits t a b) ≡ value a + value b + t
unfolding value add_digits
value-add_digits t [] [] h = ground arith
value-add_digits t [] (e ∷ b) h = absurd (omega arith)
value-add_digits t (d ∷ a) [] h = ground (arith, value-add_digits ((d + t) / 10) a [])
value-add_digits t (d ∷ a) (e ∷ b) h = ground (arith, value-add_digits ((d + e + t) / 10) a b)

pub value-zeros : (a : BigInt) (k : ℕ) → value (a ++ replicate k 0) ≡ value a
unfolding value
value-zeros [] zero = refl
value-zeros [] (suc k) = ground (arith, value-zeros [] k)
value-zeros (d ∷ a) k = ground (arith, value-zeros a k)

value-pop_zeros : (a : BigInt) → value (pop_zeros a) ≡ value a
unfolding value pop_zeros
value-pop_zeros [] = refl
value-pop_zeros (d ∷ a) = ground (arith, value-pop_zeros a)

pub value-trim : (a : BigInt) → value (trim a) ≡ value a
unfolding value trim
value-trim [] = refl
value-trim (d ∷ a) = ground (arith, value-pop_zeros a)

pub value-subtract_digits :
    (t : ℕ) (a b : BigInt)
    → AllDigits a
    → AllDigits b
    → t ≤ 1
    → value b + t ≤ value a
    → length b ≤ length a
    → value (subtract_digits t a b) + value b + t ≡ value a
unfolding value subtract_digits
value-subtract_digits t [] [] h g u l p = omega arith
value-subtract_digits t [] (e ∷ b) h g u l p = absurd (omega arith)
value-subtract_digits t (d ∷ a) [] h g u l p =
    ground (arith, value-subtract_digits 1 a [], value-subtract_digits 0 a [])
value-subtract_digits t (d ∷ a) (e ∷ b) h g u l p =
    ground (arith, value-subtract_digits 1 a b, value-subtract_digits 0 a b)

pub value-halve_digits :
    (a : BigInt)
    → (2 * value (halve_digits a).0 + (halve_digits a).1 / 5 ≡ value a)
      × ((halve_digits a).1 ≡ 5 * ((halve_digits a).1 / 5))
      × ((halve_digits a).1 ≤ 5)
unfolding value halve_digits
value-halve_digits [] = ground arith
value-halve_digits (d ∷ a) = ground (arith, value-halve_digits a)
