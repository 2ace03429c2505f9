-- ===== src/BigInt/Divide/Guess.antt =====
-- One digit of a quotient.
use cpp.Prelude.{ℕ, zero, suc, ◌+◌, ◌*◌, ◌≤◌, ◌<◌, ◌≡◌, inl, inr, Bool-cases, arith}
use cpp.BigInt.{BigInt, of_unsigned, less}
use cpp.BigInt.Digits.{value, IsNumber}
use cpp.BigInt.Order.{less-lt}
use cpp.BigInt.Sums.{add-IsNumber}
use cpp.BigInt.Steps.{of_unsigned-IsNumber}
use cpp.BigInt.Multiply.{multiply}
use cpp.BigInt.Multiply.Value.{multiply-IsNumber}
use cpp.BigInt.Divide.{push_low, guess}

pub push_low-IsNumber :
    (t : BigInt) (d : ℕ)
    → IsNumber t
    → IsNumber (push_low t d) × (value (push_low t d) ≡ value t * 10 + d)
push_low-IsNumber t d h =
    let (ten, e) = of_unsigned-IsNumber 10 in
    let (digit, f) = of_unsigned-IsNumber d in
    let (p, g) = multiply-IsNumber t (of_unsigned 10) h ten in
    let (s, k) = add-IsNumber (multiply t (of_unsigned 10)) (of_unsigned d) p digit in
    (s, rw (k, g, e, f))

pub times-IsNumber :
    (cc : ℕ) (b : BigInt)
    → IsNumber b
    → IsNumber (multiply (of_unsigned cc) b) × (value (multiply (of_unsigned cc) b) ≡ cc * value b)
times-IsNumber cc b h =
    let (digit, f) = of_unsigned-IsNumber cc in
    let (p, g) = multiply-IsNumber (of_unsigned cc) b digit h in (p, rw (g, f))

-- The guess is the greatest number up to the start whose product does not exceed `t`.
pub guess-greatest :
    (cc : ℕ) (b t : BigInt)
    → IsNumber b
    → IsNumber t
    → value t < (cc + 1) * value b
    → (guess cc b t ≤ cc)
      × (guess cc b t * value b ≤ value t)
      × (value t < (guess cc b t + 1) * value b)
unfolding guess
guess-greatest zero b t h g l = (omega arith, omega arith, omega arith)
guess-greatest (suc cc) b t h g l =
    let (p, e) = times-IsNumber (suc cc) b h in
    elim (Bool-cases (less t (multiply (of_unsigned (suc cc)) b))) [
      | inl lt ↦
          let u : value t < (cc + 1) * value b =
            omega (arith, e, (less-lt t (multiply (of_unsigned (suc cc)) b) g p).0 lt) in
          ground (arith, lt, guess-greatest cc b t h g u)
      | inr ge ↦ ground (arith, ge, l, e, less-lt t (multiply (of_unsigned (suc cc)) b) g p)
    ]
