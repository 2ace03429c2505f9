-- ===== src/BigInt/Steps.antt =====
-- Steps of one, halves, and the conversion of machine integers.
use cpp.Prelude.{
  inl, inr, ℕ, zero, suc, ◌+◌, ◌/◌, ◌%◌, ◌≤◌, ◌<◌, ◌≡◌, ◌⊎◌, refl, ap, Bool-cases, [], ◌∷◌, ◌++◌,
  arith, ◌==◌, length,
}
use cpp.Prelude.Result.{ok}
use cpp.BigInt.{
  BigInt, push_digits, of_unsigned, increment, borrow, pop_zero, decrement, halve_digits,
  divide_by_2,
}
use cpp.BigInt.Digits.{
  value, AllDigits, EndsNonzero, IsNumber, IsNumber-AllDigits, value-increment, value-trim,
  value-halve_digits,
}
use cpp.BigInt.Trim.{trim-IsNumber}

increment-AllDigits : (a : BigInt) → AllDigits a → AllDigits (increment a)
unfolding increment
increment-AllDigits [] h = (omega arith, tt)
increment-AllDigits (d ∷ a) h = ground (arith, increment-AllDigits a h.1)

EndsNonzero-cons : (d : ℕ) (a : BigInt) → EndsNonzero a → EndsNonzero (d ∷ a)
EndsNonzero-cons d [] h = absurd (omega arith)
EndsNonzero-cons d (e ∷ a) h = h

increment-EndsNonzero : (a : BigInt) → IsNumber a → EndsNonzero (increment a)
unfolding increment
increment-EndsNonzero [] h = absurd (omega arith)
increment-EndsNonzero (d ∷ []) h = ground arith
increment-EndsNonzero (d ∷ e ∷ []) h =
    let rest = increment-EndsNonzero (e ∷ []) h.0.1.0 in
    elim (Bool-cases (d == 9)) [
      | inl g ↦ ground (arith, g, h.1, EndsNonzero-cons 0 (increment (e ∷ [])) rest)
      | inr g ↦ ground (arith, g, h.1)
    ]
increment-EndsNonzero (d ∷ e ∷ f ∷ a) h =
    let rest = increment-EndsNonzero (e ∷ f ∷ a) (h.0.1, h.1) in
    elim (Bool-cases (d == 9)) [
      | inl g ↦ ground (arith, g, h.1, EndsNonzero-cons 0 (increment (e ∷ f ∷ a)) rest)
      | inr g ↦ ground (arith, g, h.1)
    ]

ends-IsNumber : (a : BigInt) → AllDigits a → EndsNonzero a → IsNumber a
ends-IsNumber [] g h = h
ends-IsNumber (d ∷ []) g h = g.0
ends-IsNumber (d ∷ e ∷ a) g h = (g, h)

-- The successor of a number is a number, and its value is one more.
pub increment-IsNumber :
    (a : BigInt) → IsNumber a → IsNumber (increment a) × (value (increment a) ≡ value a + 1)
increment-IsNumber a h = (
  ends-IsNumber (increment a) (increment-AllDigits a (IsNumber-AllDigits a h))
      (increment-EndsNonzero a h),
  value-increment a (IsNumber-AllDigits a h),
)

halve_digits-AllDigits : (a : BigInt) → AllDigits a → AllDigits (halve_digits a).0
unfolding halve_digits
halve_digits-AllDigits [] h = tt
halve_digits-AllDigits (d ∷ a) h =
    (ground (arith, h.0, value-halve_digits a), halve_digits-AllDigits a h.1)

length-halve_digits : (a : BigInt) → length (halve_digits a).0 ≡ length a
unfolding halve_digits
length-halve_digits [] = refl
length-halve_digits (d ∷ a) = ground (arith, length-halve_digits a)

IsNumber-nonempty : (a : BigInt) → IsNumber a → 0 < length a
IsNumber-nonempty [] g = g
IsNumber-nonempty (d ∷ a) g = omega arith

-- Half of a number is a number, and its value is half of the value, rounded down.
divide_by_2-IsNumber :
    (a : BigInt) → IsNumber a → IsNumber (divide_by_2 a) × (value (divide_by_2 a) ≡ value a / 2)
unfolding divide_by_2
divide_by_2-IsNumber a g = (
  trim-IsNumber (halve_digits a).0 (halve_digits-AllDigits a (IsNumber-AllDigits a g))
      (omega (arith, length-halve_digits a, IsNumber-nonempty a g)),
  ground (arith, value-trim (halve_digits a).0, value-halve_digits a),
)

value-push_digits : (fuel n : ℕ) → n < fuel → value (push_digits fuel n) ≡ n
unfolding value push_digits
value-push_digits zero n h = absurd (omega arith)
value-push_digits (suc fuel) n h = ground (arith, value-push_digits fuel (n / 10))

-- A digit below a number above zero.
IsNumber-push : (d : ℕ) (a : BigInt) → d < 10 → IsNumber a → 0 < value a → IsNumber (d ∷ a)
unfolding value
IsNumber-push d [] h g l = h
IsNumber-push d (e ∷ []) h g l = ((h, (g, tt)), omega arith)
IsNumber-push d (e ∷ f ∷ a) h g l = ((h, g.0), g.1)

-- No fuel above the number changes the digits, and there is at least one.
push_digits-IsNumber : (fuel n : ℕ) → n < fuel → IsNumber (push_digits fuel n)
unfolding push_digits
push_digits-IsNumber zero n h = absurd (omega arith)
push_digits-IsNumber (suc fuel) n h = ground (
  arith,
  push_digits-IsNumber fuel (n / 10),
  value-push_digits fuel (n / 10),
  IsNumber-push (n % 10) (push_digits fuel (n / 10)),
)

-- The digits of a machine integer are a number with its value.
pub of_unsigned-IsNumber : (n : ℕ) → IsNumber (of_unsigned n) × (value (of_unsigned n) ≡ n)
unfolding of_unsigned
of_unsigned-IsNumber n =
    (push_digits-IsNumber (suc n) n (omega arith), value-push_digits (suc n) n (omega arith))

borrow-increment :
    (a : BigInt) → (b : BigInt) × (borrow (increment a) ≡ ok b) × ((b ≡ a) ⊎ (b ≡ a ++ 0 ∷ []))
unfolding borrow increment
borrow-increment [] = (0 ∷ [], refl, inr refl)
borrow-increment (d ∷ a) = elim (Bool-cases (d == 9)) [
  | inl h ↦
      let (b, p, q) = borrow-increment a in (9 ∷ b, ground (arith, h, p), ground (arith, h, q))
  | inr h ↦ (d ∷ a, ground (arith, h), inl refl)
]

pop_zero-EndsNonzero : (a : BigInt) → EndsNonzero a → pop_zero a ≡ a
unfolding pop_zero
pop_zero-EndsNonzero [] h = refl
pop_zero-EndsNonzero (d ∷ []) h = ground arith
pop_zero-EndsNonzero (d ∷ e ∷ a) h = ap (λ x. d ∷ x) (pop_zero-EndsNonzero (e ∷ a) h)

pop_zero-append : (a : BigInt) → pop_zero (a ++ 0 ∷ []) ≡ a
unfolding pop_zero
pop_zero-append [] = ground arith
pop_zero-append (d ∷ []) = ground arith
pop_zero-append (d ∷ e ∷ a) = ap (λ x. d ∷ x) (pop_zero-append (e ∷ a))

decrement-borrow :
    (d e : ℕ) (a b : BigInt) → borrow (d ∷ e ∷ a) ≡ ok b → decrement (d ∷ e ∷ a) ≡ ok (pop_zero b)
unfolding decrement
decrement-borrow zero e a b h = ground (arith, h)
decrement-borrow (suc d) e a b h = ground (arith, h)

length-increment : (a : BigInt) → length a ≤ length (increment a)
unfolding increment
length-increment [] = omega arith
length-increment (d ∷ a) = ground (arith, length-increment a)

decrement-long : (a b : BigInt) → 1 < length a → borrow a ≡ ok b → decrement a ≡ ok (pop_zero b)
decrement-long [] b l h = absurd (omega arith)
decrement-long (d ∷ []) b l h = absurd (omega arith)
decrement-long (d ∷ e ∷ a) b l h = decrement-borrow d e a b h

decrement-increment_long :
    (a : BigInt) → EndsNonzero a → 1 < length a → decrement (increment a) ≡ ok a
decrement-increment_long a n l =
    let (b, p, q) = borrow-increment a in
    ground (
      arith,
      decrement-long (increment a) b (omega (arith, length-increment a)) p,
      q,
      pop_zero-EndsNonzero a n,
      pop_zero-append a,
    )

decrement-digit : (d : ℕ) → d < 10 → decrement (increment (d ∷ [])) ≡ ok (d ∷ [])
unfolding decrement increment borrow pop_zero
decrement-digit d h = elim (Bool-cases (d == 9)) [
  | inl g ↦ ground (arith, g)
  | inr g ↦ ground (arith, g)
]

-- A number that is incremented is decremented to itself.
decrement-increment : (a : BigInt) → IsNumber a → decrement (increment a) ≡ ok a
decrement-increment [] h = absurd (omega arith)
decrement-increment (d ∷ []) h = decrement-digit d h
decrement-increment (d ∷ e ∷ a) h = decrement-increment_long (d ∷ e ∷ a) h.1 (omega arith)
