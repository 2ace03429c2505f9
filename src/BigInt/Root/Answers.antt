-- ===== src/BigInt/Root/Answers.antt =====
-- The answer of the problem: which number has the given sum of all numbers up to it.
use mathlib.Core.List.{reverse, reverse_aux, reverse-reverse}
use native.Mathlib.Nat.{mul_comm, mul-add, add-mul, mul_assoc}
use cpp.Prelude.{ℕ, zero, suc, ◌+◌, ◌*◌, ◌≤◌, ◌<◌, ◌≡◌, refl, ap, ◌∙◌, some, List, [], ◌∷◌, arith}
use cpp.Prelude.Decimal.{show_nat, digits}
use cpp.Prelude.Result.{ok}
use cpp.BigInt.{BigInt, of_unsigned, of_string, push_chars, add}
use cpp.BigInt.Digits.{value, AllDigits, IsNumber, IsNumber-AllDigits}
use cpp.BigInt.Order.{value-injective}
use cpp.BigInt.Sums.{add-IsNumber}
use cpp.BigInt.Steps.{of_unsigned-IsNumber}
use cpp.BigInt.Multiply.{multiply}
use cpp.BigInt.Multiply.Value.{multiply-IsNumber}
use cpp.BigInt.Divide.Value.{AllDigits-reverse}
use cpp.BigInt.Root.{half_below, answer, print_digits, print_number, print_answer}
use cpp.BigInt.Root.Bisection.{half, predecessor, sqr_root-IsRoot}

odd_square : (n : ℕ) → (2 * n + 1) * (2 * n + 1) ≡ 4 * (n * (n + 1)) + 1
odd_square n = grind (arith, mul-add, add-mul, mul_assoc, mul_comm)

next_square : (n : ℕ) → (2 * n + 3) * (2 * n + 3) ≡ 4 * ((n + 1) * (n + 2)) + 1
next_square n = grind (arith, mul-add, add-mul, mul_assoc, mul_comm)

square_mono : (a b : ℕ) → a ≤ b → a * a ≤ b * b
square_mono a b h = grind arith

-- The greatest `n` whose sum 1 + ... + n is at most `s`.
abbrev pub IsGreatest : ℕ → ℕ → Type 0
IsGreatest s n = (n * (n + 1) ≤ 2 * s) × (2 * s < (n + 1) * (n + 2))

root-IsGreatest :
    (r s n : ℕ)
    → r * r ≤ 8 * s + 1
    → 8 * s + 1 < (r + 1) * (r + 1)
    → 2 * n + 1 ≤ r
    → r ≤ 2 * n + 2
    → IsGreatest s n
root-IsGreatest r s n p q l u = (
  omega (arith, odd_square n, square_mono (2 * n + 1) r l, p),
  omega (arith, next_square n, square_mono (r + 1) (2 * n + 3) (omega (arith, u)), q),
)

root_pos : (r s : ℕ) → 8 * s + 1 < (r + 1) * (r + 1) → 0 < r
root_pos zero s h = absurd (omega arith)
root_pos (suc r) s h = omega arith

half_below-lem :
    (r : BigInt)
    → IsNumber r
    → 0 < value r
    → (n : BigInt) × (half_below (some r) ≡ ok (some n))
      × IsNumber n
      × (2 * value n + 1 ≤ value r)
      × (value r ≤ 2 * value n + 2)
unfolding half_below
half_below-lem r h l =
    let (s, f, g, k) = predecessor r h l in
    let (n, d, hn, e) = half s g in
    (n, ground (arith, f, d), hn, omega (arith, k, e), omega (arith, k, e))

-- The answer is returned for every number without superfluous zeros: it is such a number, and the
-- greatest whose sum of all numbers up to it is at most the number given.
pub answer-IsGreatest :
    (sum : BigInt)
    → IsNumber sum
    → (n : BigInt) × (answer sum ≡ ok (some n)) × IsNumber n × IsGreatest (value sum) (value n)
unfolding answer
answer-IsGreatest sum h =
    let (eight, a) = of_unsigned-IsNumber 8 in
    let (one, b) = of_unsigned-IsNumber 1 in
    let (p, c) = multiply-IsNumber (of_unsigned 8) sum eight h in
    let (q, d) = add-IsNumber (multiply (of_unsigned 8) sum) (of_unsigned 1) p one in
    let e : value (add (multiply (of_unsigned 8) sum) (of_unsigned 1)) ≡ 8 * value sum + 1 =
      rw (d, c, a, b) in
    let (r, f, i) = sqr_root-IsRoot (add (multiply (of_unsigned 8) sum) (of_unsigned 1)) q in
    let lo' : value r * value r ≤ 8 * value sum + 1 = rw (← e) i.1 in
    let hi' : 8 * value sum + 1 < (value r + 1) * (value r + 1) = rw (← e) i.2 in
    let (n, g, hn, u, v) = half_below-lem r i.0 (root_pos (value r) (value sum) hi') in
    (n, ground (arith, f, g), hn, root-IsGreatest (value r) (value sum) (value n) lo' hi' u v)

digit_text : (d : ℕ) → d < 10 → show_nat d ≡ (48 + d) ∷ []
unfolding show_nat digits
digit_text d h = ground arith

push_chars-print_digits :
    (ds acc : List ℕ) → AllDigits ds → push_chars (print_digits ds) acc ≡ ok (reverse_aux ds acc)
unfolding push_chars print_digits
push_chars-print_digits [] acc h = refl
push_chars-print_digits (d ∷ ds) acc h =
    rw (digit_text d h.0) (ground (arith, push_chars-print_digits ds (d ∷ acc) h.1))

-- A number that is printed is read as the same digits.
pub of_string-print_number : (a : BigInt) → AllDigits a → of_string (print_number a) ≡ ok a
unfolding of_string print_number
of_string-print_number a h =
    push_chars-print_digits (reverse a) [] (AllDigits-reverse a h) ∙ ap ok (reverse-reverse a)

product_mono : (m n : ℕ) → m ≤ n → m * (m + 1) ≤ n * (n + 1)
product_mono m n h = grind arith

product_step : (m n : ℕ) → m < n → (m + 1) * (m + 2) ≤ n * (n + 1)
product_step m n h = omega (arith, product_mono (m + 1) n (omega (arith, h)))

product_lt : (n : ℕ) → n * (n + 1) < (n + 1) * (n + 2)
product_lt n = grind arith

greatest_unique : (s n k : ℕ) → IsGreatest s n → 2 * s ≡ k * (k + 1) → n ≡ k
greatest_unique s n k g e = ground (arith, g, e, product_step n k, product_step k n, product_lt k)

-- On the text of a sum of all numbers up to `k`, the program prints `k`; both are numbers without
-- superfluous zeros.
pub print_answer-prints :
    (sum k : BigInt)
    → IsNumber sum
    → IsNumber k
    → 2 * value sum ≡ value k * (value k + 1)
    → print_answer (print_number sum) ≡ ok (some (print_number k))
unfolding print_answer
print_answer-prints sum k h g e =
    let (n, f, hn, i) = answer-IsGreatest sum h in
    let same : n ≡ k =
      value-injective n k hn g (greatest_unique (value sum) (value n) (value k) i e) in
    ground (arith, of_string-print_number sum (IsNumber-AllDigits sum h), f, same)
