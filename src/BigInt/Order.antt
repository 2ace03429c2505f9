-- ===== src/BigInt/Order.antt =====
-- The order of numbers, and that a number has only one way to be written.
use cpp.Prelude.{
  ℕ, zero, suc, ◌≤◌, ◌<◌, ◌≡◌, ◌↔◌, refl, true, false, [], ◌∷◌, arith, ltb, if◌then◌else◌, length,
}
use cpp.BigInt.{BigInt, less_from, less}
use cpp.BigInt.Digits.{value, AllDigits, EndsNonzero, IsNumber, IsNumber-AllDigits}

EndsNonzero-value : (a : BigInt) → EndsNonzero a → 0 < value a
unfolding value
EndsNonzero-value [] h = h
EndsNonzero-value (d ∷ []) h = omega arith
EndsNonzero-value (d ∷ e ∷ a) h = ground (arith, EndsNonzero-value (e ∷ a) h)

-- More digits make a larger number.
length-lt : (a b : BigInt) → AllDigits a → EndsNonzero b → length a < length b → value a < value b
unfolding value
length-lt a [] g n h = absurd (omega arith)
length-lt [] (e ∷ b) g n h = EndsNonzero-value (e ∷ b) n
length-lt (d ∷ a) (e ∷ []) g n h = absurd (omega arith)
length-lt (d ∷ a) (e ∷ f ∷ b) g n h = ground (arith, length-lt a (f ∷ b) g.1 n (omega arith))

-- The loop on the digits above the first, and then on the first.
less_from-cons :
    (n d e : ℕ) (a b : BigInt)
    → less_from (suc n) (d ∷ a) (e ∷ b)
      ≡ (if less_from n a b then true else if less_from n b a then false else ltb d e)
unfolding less_from
less_from-cons zero d e a b = ground arith
less_from-cons (suc n) d e a b = ground (arith, less_from-cons n d e a b)

less_from-lt :
    (n : ℕ) (a b : BigInt)
    → AllDigits a
    → AllDigits b
    → length a ≡ n
    → length b ≡ n
    → (less_from n a b ≡ ltb (value a) (value b)) × (less_from n b a ≡ ltb (value b) (value a))
unfolding value
less_from-lt zero [] [] g h p q = unfold less_from in (refl, refl)
less_from-lt zero [] (e ∷ b) g h p q = absurd (omega arith)
less_from-lt zero (d ∷ a) b g h p q = absurd (omega arith)
less_from-lt (suc n) [] b g h p q = absurd (omega arith)
less_from-lt (suc n) (d ∷ a) [] g h p q = absurd (omega arith)
less_from-lt (suc n) (d ∷ a) (e ∷ b) g h p q = ground (
  arith,
  less_from-cons n d e a b,
  less_from-cons n e d b a,
  less_from-lt n a b g.1 h.1 (omega arith) (omega arith),
)

IsNumber-length : (a b : BigInt) → IsNumber a → IsNumber b → length a < length b → value a < value b
IsNumber-length a [] g h l = absurd (omega arith)
IsNumber-length [] (e ∷ b) g h l = absurd (omega arith)
IsNumber-length (d ∷ a) (e ∷ []) g h l = absurd (omega arith)
IsNumber-length (d ∷ a) (e ∷ f ∷ b) g h l =
    length-lt (d ∷ a) (e ∷ f ∷ b) (IsNumber-AllDigits (d ∷ a) g) h.1 l

-- On numbers without superfluous zeros, the comparison of lengths and digits is true exactly when
-- the value of the first is below that of the second.
pub less-lt : (a b : BigInt) → IsNumber a → IsNumber b → (less a b ≡ true) ↔ (value a < value b)
unfolding less
less-lt a b g h = ground (
  arith,
  IsNumber-length a b g h,
  IsNumber-length b a h g,
  less_from-lt (length a) a b (IsNumber-AllDigits a g) (IsNumber-AllDigits b h) refl,
)

same-digits :
    (a b : BigInt) → AllDigits a → AllDigits b → length a ≡ length b → value a ≡ value b → a ≡ b
unfolding value
same-digits [] [] g h l e = refl
same-digits [] (y ∷ b) g h l e = absurd (omega arith)
same-digits (x ∷ a) [] g h l e = absurd (omega arith)
same-digits (x ∷ a) (y ∷ b) g h l e = ground (arith, same-digits a b g.1 h.1)

-- Numbers with the same value have the same digits, so that `==` on the digits is equality.
pub value-injective : (a b : BigInt) → IsNumber a → IsNumber b → value a ≡ value b → a ≡ b
value-injective a b g h e = ground (
  arith,
  IsNumber-length a b g h,
  IsNumber-length b a h g,
  same-digits a b (IsNumber-AllDigits a g) (IsNumber-AllDigits b h),
)

pub IsNumber-longer :
    (a b : BigInt) → IsNumber a → IsNumber b → value b ≤ value a → length b ≤ length a
IsNumber-longer a b g h l = ground (arith, IsNumber-length a b g h)
