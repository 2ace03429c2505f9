-- ===== src/BigInt/Multiply/Value.antt =====
-- The value of a product.
use native.Mathlib.Nat.{mul-add, add-mul, mul_assoc, mul_left_comm}
use cpp.Prelude.{
  ℕ, zero, suc, ◌+◌, ◌*◌, ◌/◌, ◌≤◌, ◌<◌, ◌≡◌, inl, inr, refl, ◌∙◌, true, Bool-cases, List, [], ◌∷◌,
  arith, ◌||◌, length, replicate, length-replicate,
}
use cpp.BigInt.{BigInt, is_null, trim}
use cpp.BigInt.Digits.{value, AllDigits, IsNumber, IsNumber-AllDigits, value-trim}
use cpp.BigInt.Trim.{trim-IsNumber}
use cpp.BigInt.Steps.{of_unsigned-IsNumber}
use cpp.BigInt.Multiply.{add_row, add_rows, carry_digits, multiply}

-- 10 to the power of `n`
unfoldable pub place : ℕ → ℕ
place zero = 1
place (suc n) = 10 * place n

pub place_pos : (n : ℕ) → 0 < place n
unfolding place
place_pos zero = omega arith
place_pos (suc n) = omega (arith, place_pos n)

place-add : (m n : ℕ) → place (m + n) ≡ place m * place n
unfolding place
place-add zero n = ground arith
place-add (suc m) n =
    let e : suc m + n ≡ suc (m + n) = omega arith in
    rw e (omega (arith, place-add m n, mul_assoc 10 (place m) (place n)))

pub value-lt-place : (a : BigInt) → AllDigits a → value a < place (length a)
unfolding value place
value-lt-place [] h = omega arith
value-lt-place (d ∷ a) h = omega (arith, value-lt-place a h.1, h.0)

length-add_row : (d : ℕ) (b : BigInt) (v : List ℕ) → length (add_row d b v) ≡ length v
unfolding add_row
length-add_row d [] v = refl
length-add_row d (e ∷ b) [] = refl
length-add_row d (e ∷ b) (x ∷ v) = omega (arith, length-add_row d b v)

mul_cons : (d e b : ℕ) → d * (e + 10 * b) ≡ d * e + 10 * (d * b)
mul_cons d e b = grind (arith, mul-add, mul_left_comm)

value-add_row :
    (d : ℕ) (b : BigInt) (v : List ℕ)
    → length b ≤ length v
    → value (add_row d b v) ≡ value v + d * value b
unfolding value add_row
value-add_row d [] v h = ground arith
value-add_row d (e ∷ b) [] h = absurd (omega arith)
value-add_row d (e ∷ b) (x ∷ v) h = omega (arith, value-add_row d b v, mul_cons d e (value b))

cons_mul : (d a b : ℕ) → (d + 10 * a) * b ≡ d * b + 10 * (a * b)
cons_mul d a b = grind (arith, add-mul, mul_assoc)

-- What `add_rows` makes of the row that is left.
rows_lem :
    (d : ℕ) (a b : BigInt) (w v : List ℕ)
    → value w ≡ value v + d * value b
    → ((rest : List ℕ)
        → length rest + 1 ≡ length w
        → value (add_rows a b rest) ≡ value rest + value a * value b)
    → 0 < length w
    → value (elim w as (λ x. List ℕ) [ [] ↦ [] | x ∷ rest ↦ x ∷ add_rows a b rest ])
      ≡ value v + value (d ∷ a) * value b
unfolding value
rows_lem d a b [] v h ih l = absurd (omega arith)
rows_lem d a b (x ∷ w) v h ih l =
    omega (arith, h, ih w (omega arith), cons_mul d (value a) (value b))

value-add_rows :
    (a b : BigInt) (v : List ℕ)
    → length a + length b ≤ length v
    → value (add_rows a b v) ≡ value v + value a * value b
unfolding add_rows
value-add_rows [] b v h = unfold value in ground arith
value-add_rows (d ∷ a) b v h =
    let ih = value-add_rows a b in
    rows_lem d a b (add_row d b v) v (value-add_row d b v (omega arith))
      (λ rest l. ih rest (omega (arith, l, length-add_row d b v)))
      (omega (arith, length-add_row d b v))

value-carry_digits :
    (t : ℕ) (v : List ℕ) → value v + t < place (length v) → value (carry_digits t v) ≡ value v + t
unfolding value carry_digits place
value-carry_digits t [] h = omega arith
value-carry_digits t (x ∷ v) h = omega (arith, value-carry_digits ((t + x) / 10) v (omega arith))

carry_digits-AllDigits : (t : ℕ) (v : List ℕ) → AllDigits (carry_digits t v)
unfolding carry_digits
carry_digits-AllDigits t [] = tt
carry_digits-AllDigits t (x ∷ v) = (omega arith, carry_digits-AllDigits ((t + x) / 10) v)

length-carry_digits : (t : ℕ) (v : List ℕ) → length (carry_digits t v) ≡ length v
unfolding carry_digits
length-carry_digits t [] = refl
length-carry_digits t (x ∷ v) = omega (arith, length-carry_digits ((t + x) / 10) v)

length-rest :
    (d : ℕ) (a b : BigInt) (w v : List ℕ)
    → length w ≡ length v
    → ((rest : List ℕ) → length (add_rows a b rest) ≡ length rest)
    → length (elim w as (λ x. List ℕ) [ [] ↦ [] | x ∷ rest ↦ x ∷ add_rows a b rest ]) ≡ length v
length-rest d a b [] v h ih = h
length-rest d a b (x ∷ w) v h ih = omega (arith, h, ih w)

length-add_rows : (a b : BigInt) (v : List ℕ) → length (add_rows a b v) ≡ length v
unfolding add_rows
length-add_rows [] b v = refl
length-add_rows (d ∷ a) b v =
    length-rest d a b (add_row d b v) v (length-add_row d b v) (length-add_rows a b)

value-zeros : (n : ℕ) → value (replicate n 0) ≡ 0
unfolding value
value-zeros zero = refl
value-zeros (suc n) = omega (arith, value-zeros n)

mul-lt : (a b p q : ℕ) → a < p → b < q → a * b < p * q
mul-lt a b p q h g = grind arith

value-multiply_digits :
    (a b : BigInt)
    → AllDigits a
    → AllDigits b
    → value (carry_digits 0 (add_rows a b (replicate (length a + length b) 0))) ≡ value a * value b
value-multiply_digits a b g h =
    let zeros = replicate {A = ℕ} (length a + length b) 0 in
    let n : length zeros ≡ length a + length b = length-replicate (length a + length b) 0 in
    let v : value (add_rows a b zeros) ≡ value a * value b =
      omega
        (arith, value-add_rows a b zeros (omega (arith, n)), value-zeros (length a + length b)) in
    let l : value a * value b < place (length a + length b) = rw (place-add (length a) (length b)) (
      mul-lt (value a) (value b) (place (length a)) (place (length b)) (value-lt-place a g)
        (value-lt-place b h)) in
    let fits : value (add_rows a b zeros) + 0 < place (length (add_rows a b zeros)) =
      rw (length-add_rows a b zeros, n) (omega (arith, v, l)) in
    omega (arith, value-carry_digits 0 (add_rows a b zeros) fits, v)

is_null-zero : (a : BigInt) → is_null a ≡ true → value a ≡ 0
unfolding value
is_null-zero [] h = cc
is_null-zero (d ∷ []) h = ground (arith, h)
is_null-zero (d ∷ e ∷ a) h = cc

multiply-null : (a b : BigInt) → (is_null a || is_null b) ≡ true → value a * value b ≡ 0
multiply-null a b h = elim (Bool-cases (is_null a)) [
  | inl g ↦ rw (is_null-zero a g) (omega arith)
  | inr g ↦ rw (is_null-zero b (ground (arith, g, h))) (omega arith)
]

IsNumber-length_pos : (a : BigInt) → IsNumber a → 0 < length a
IsNumber-length_pos [] g = g
IsNumber-length_pos (d ∷ a) g = omega arith

abbrev product : BigInt → BigInt → List ℕ
product a b = add_rows a b (replicate (length a + length b) 0)

product_digits :
    (a b : BigInt)
    → IsNumber a
    → IsNumber b
    → IsNumber (trim (carry_digits 0 (product a b)))
      × (value (trim (carry_digits 0 (product a b))) ≡ value a * value b)
product_digits a b g h =
    let l : 0 < length (carry_digits 0 (product a b)) = omega (
      arith,
      length-carry_digits 0 (product a b),
      length-add_rows a b (replicate (length a + length b) 0),
      length-replicate {A = ℕ} (length a + length b) 0,
      IsNumber-length_pos a g,
    ) in
    (
      trim-IsNumber (carry_digits 0 (product a b)) (carry_digits-AllDigits 0 (product a b)) l,
      value-trim (carry_digits 0 (product a b))
          ∙ value-multiply_digits a b (IsNumber-AllDigits a g) (IsNumber-AllDigits b h),
    )

-- The product of two numbers without superfluous zeros is such a number, and its value is the
-- product of theirs.
pub multiply-IsNumber :
    (a b : BigInt)
    → IsNumber a
    → IsNumber b
    → IsNumber (multiply a b) × (value (multiply a b) ≡ value a * value b)
unfolding multiply
multiply-IsNumber a b g h = elim (Bool-cases (is_null a || is_null b)) [
  | inl n ↦ ground (arith, n, multiply-null a b n, of_unsigned-IsNumber 0)
  | inr n ↦ ground (arith, n, product_digits a b g h)
]
