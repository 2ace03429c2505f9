-- ===== src/BigInt/Sums.antt =====
-- Sums and differences.
use mathlib.Core.List.{append-nil}
use cpp.Prelude.{
  inl, inr, ℕ, zero, suc, ◌+◌, ◌-◌, ◌/◌, ◌≤◌, ◌<◌, ◌≡◌, refl, Bool-cases, [], ◌∷◌, ◌++◌, arith, ltb,
  length, length-append, length-replicate, replicate,
}
use cpp.Prelude.Result.{ok, throw, thrown_string}
use cpp.BigInt.{BigInt, add_digits, add, subtract_digits, trim, subtract}
use cpp.BigInt.Digits.{
  value, AllDigits, EndsNonzero, IsNumber, IsNumber-AllDigits, value-add_digits, value-zeros,
  value-trim, value-subtract_digits,
}
use cpp.BigInt.Order.{less-lt, IsNumber-longer}
use cpp.BigInt.Trim.{trim-IsNumber}

AllDigits-zeros : (a : BigInt) (k : ℕ) → AllDigits a → AllDigits (a ++ replicate k 0)
AllDigits-zeros [] zero h = tt
AllDigits-zeros [] (suc k) h = (omega arith, AllDigits-zeros [] k tt)
AllDigits-zeros (d ∷ a) k h = (h.0, AllDigits-zeros a k h.1)

add_digits-AllDigits :
    (t : ℕ) (a b : BigInt) → t ≤ 1 → AllDigits a → AllDigits b → AllDigits (add_digits t a b)
unfolding add_digits
add_digits-AllDigits t [] b u g h = ground arith
add_digits-AllDigits t (d ∷ a) [] u g h =
    (omega arith, add_digits-AllDigits ((d + t) / 10) a [] (omega arith) g.1 tt)
add_digits-AllDigits t (d ∷ a) (e ∷ b) u g h =
    (omega arith, add_digits-AllDigits ((d + e + t) / 10) a b (omega arith) g.1 h.1)

-- A sum has as many digits as its first number, or one more.
length-add_digits : (t : ℕ) (a b : BigInt) → length a ≤ length (add_digits t a b)
unfolding add_digits
length-add_digits t [] b = omega arith
length-add_digits t (d ∷ a) [] = ground (arith, length-add_digits ((d + t) / 10) a [])
length-add_digits t (d ∷ a) (e ∷ b) = ground (arith, length-add_digits ((d + e + t) / 10) a b)

-- The last digit of the first number keeps the last digit of the sum above zero.
add_digits-left : (t : ℕ) (a b : BigInt) → EndsNonzero a → EndsNonzero (add_digits t a b)
unfolding add_digits
add_digits-left t [] b h = absurd (omega arith)
add_digits-left t (d ∷ []) [] h = ground arith
add_digits-left t (d ∷ []) (e ∷ b) h = ground arith
add_digits-left t (d ∷ d2 ∷ a) [] h = add_digits-left ((d + t) / 10) (d2 ∷ a) [] h
add_digits-left t (d ∷ d2 ∷ a) (e ∷ []) h = add_digits-left ((d + e + t) / 10) (d2 ∷ a) [] h
add_digits-left t (d ∷ d2 ∷ a) (e ∷ e2 ∷ b) h =
    add_digits-left ((d + e + t) / 10) (d2 ∷ a) (e2 ∷ b) h

-- So does that of the second, when it is as long.
add_digits-right :
    (t : ℕ) (a b : BigInt) → EndsNonzero b → length a ≡ length b → EndsNonzero (add_digits t a b)
unfolding add_digits
add_digits-right t a [] h l = absurd (omega arith)
add_digits-right t [] (e ∷ b) h l = absurd (omega arith)
add_digits-right t (d ∷ []) (e ∷ []) h l = ground arith
add_digits-right t (d ∷ []) (e ∷ e2 ∷ b) h l = absurd (omega arith)
add_digits-right t (d ∷ d2 ∷ a) (e ∷ []) h l = absurd (omega arith)
add_digits-right t (d ∷ d2 ∷ a) (e ∷ e2 ∷ b) h l =
    add_digits-right ((d + e + t) / 10) (d2 ∷ a) (e2 ∷ b) h (omega arith)

IsNumber-ends : (a : BigInt) → AllDigits a → EndsNonzero a → IsNumber a
IsNumber-ends [] g h = h
IsNumber-ends (d ∷ []) g h = g.0
IsNumber-ends (d ∷ e ∷ a) g h = (g, h)

-- A number of several digits ends in a digit above zero.
IsNumber-long : (a : BigInt) → IsNumber a → 1 < length a → EndsNonzero a
IsNumber-long [] g h = g
IsNumber-long (d ∷ []) g h = absurd (omega arith)
IsNumber-long (d ∷ e ∷ a) g h = g.1

IsNumber-nonempty : (a : BigInt) → IsNumber a → 0 < length a
IsNumber-nonempty [] g = g
IsNumber-nonempty (d ∷ a) g = omega arith

add-digit : (d e : ℕ) → d < 10 → e < 10 → IsNumber (add_digits 0 (d ∷ []) (e ∷ []))
unfolding add_digits
add-digit d e g h = ground arith

append-zeros : (a : BigInt) (k : ℕ) → k ≡ 0 → a ++ replicate k 0 ≡ a
append-zeros a zero h = append-nil a
append-zeros a (suc k) h = absurd (omega arith)

add-right :
    (a b : BigInt)
    → AllDigits a
    → AllDigits b
    → EndsNonzero b
    → length a ≤ length b
    → IsNumber (add a b)
unfolding add
add-right a b g h n l =
    let k = length b - length a in
    let p : length (a ++ replicate k 0) ≡ length b =
      omega (arith, length-append a (replicate k 0), length-replicate {A = ℕ} k 0) in
    IsNumber-ends (add_digits 0 (a ++ replicate k 0) b)
      (add_digits-AllDigits 0 (a ++ replicate k 0) b (omega arith) (AllDigits-zeros a k g) h)
      (add_digits-right 0 (a ++ replicate k 0) b n p)

add-left :
    (a b : BigInt)
    → AllDigits a
    → AllDigits b
    → EndsNonzero a
    → length b ≤ length a
    → IsNumber (add a b)
unfolding add
add-left a b g h n l = rw (append-zeros a (length b - length a) (omega arith)) (
    IsNumber-ends (add_digits 0 a b) (add_digits-AllDigits 0 a b (omega arith) g h)
      (add_digits-left 0 a b n))

sum-IsNumber : (a b : BigInt) → IsNumber a → IsNumber b → IsNumber (add a b)
sum-IsNumber a [] g h = absurd (omega arith)
sum-IsNumber [] (e ∷ b) g h = absurd (omega arith)
sum-IsNumber (d ∷ []) (e ∷ []) g h = unfold add in add-digit d e g h
sum-IsNumber (d ∷ []) (e ∷ f ∷ b) g h = add-right (d ∷ []) (e ∷ f ∷ b) (g, tt) h.0 h.1 (omega arith)
sum-IsNumber (d ∷ c ∷ a) (e ∷ b) g h = elim (Bool-cases (ltb (length (c ∷ a)) (length b))) [
  | inl l ↦
      add-right (d ∷ c ∷ a) (e ∷ b) g.0 (IsNumber-AllDigits (e ∷ b) h)
        (IsNumber-long (e ∷ b) h (ground (arith, l))) (ground (arith, l))
  | inr l ↦ add-left (d ∷ c ∷ a) (e ∷ b) g.0 (IsNumber-AllDigits (e ∷ b) h) g.1 (ground (arith, l))
]

-- The sum of two numbers without superfluous zeros is such a number, and its value is the sum of theirs.
pub add-IsNumber :
    (a b : BigInt)
    → IsNumber a
    → IsNumber b
    → IsNumber (add a b) × (value (add a b) ≡ value a + value b)
add-IsNumber a b g h =
    let k = length b - length a in
    let p : length b ≤ length (a ++ replicate k 0) =
      omega (arith, length-append a (replicate k 0), length-replicate {A = ℕ} k 0) in
    (
      sum-IsNumber a b g h,
      unfold add in omega (arith, value-add_digits 0 (a ++ replicate k 0) b p, value-zeros a k),
    )

subtract_digits-AllDigits :
    (t : ℕ) (a b : BigInt) → t ≤ 1 → AllDigits a → AllDigits b → AllDigits (subtract_digits t a b)
unfolding subtract_digits
subtract_digits-AllDigits t [] b u g h = tt
subtract_digits-AllDigits t (d ∷ a) [] u g h =
    ground (arith, subtract_digits-AllDigits 1 a [], subtract_digits-AllDigits 0 a [])
subtract_digits-AllDigits t (d ∷ a) (e ∷ b) u g h =
    ground (arith, subtract_digits-AllDigits 1 a b, subtract_digits-AllDigits 0 a b)

length-subtract_digits : (t : ℕ) (a b : BigInt) → length (subtract_digits t a b) ≡ length a
unfolding subtract_digits
length-subtract_digits t [] b = refl
length-subtract_digits t (d ∷ a) [] =
    ground (arith, length-subtract_digits 1 a [], length-subtract_digits 0 a [])
length-subtract_digits t (d ∷ a) (e ∷ b) =
    ground (arith, length-subtract_digits 1 a b, length-subtract_digits 0 a b)

difference-IsNumber :
    (a b : BigInt) → IsNumber a → IsNumber b → IsNumber (trim (subtract_digits 0 a b))
difference-IsNumber a b g h =
    trim-IsNumber (subtract_digits 0 a b)
      (subtract_digits-AllDigits 0 a b (omega arith) (IsNumber-AllDigits a g)
        (IsNumber-AllDigits b h))
      (omega (arith, length-subtract_digits 0 a b, IsNumber-nonempty a g))

-- Without superfluous zeros, a number that is not larger is subtracted: the difference is such a
-- number, and its value is the
-- difference of theirs.
pub subtract-IsNumber :
    (a b : BigInt)
    → IsNumber a
    → IsNumber b
    → value b ≤ value a
    → (r : BigInt) × (subtract a b ≡ ok r) × IsNumber r × (value r + value b ≡ value a)
unfolding subtract
subtract-IsNumber a b g h l = (
  trim (subtract_digits 0 a b),
  ground (arith, less-lt a b g h),
  difference-IsNumber a b g h,
  omega (
    arith,
    value-trim (subtract_digits 0 a b),
    value-subtract_digits 0 a b (IsNumber-AllDigits a g) (IsNumber-AllDigits b h) (omega arith)
        (omega arith) (IsNumber-longer a b g h l),
  ),
)

-- The subtraction of a larger number throws.
pub subtract-throws :
    (a b : BigInt)
    → IsNumber a
    → IsNumber b
    → value a < value b
    → subtract a b ≡ throw thrown_string
unfolding subtract
subtract-throws a b g h l = ground (arith, less-lt a b g h)
