-- ===== src/BigInt/Root.antt =====
-- The square root by bisection, and the answer of the problem: `SqrRoot`, `Answer`, the printing and
-- `main` of timus/1153/main.cpp. The loop runs on fuel, with `none` where it runs out.
pub mod Bisection
pub mod Answers
use mathlib.Core.List.{reverse}
use cpp.Prelude.{ℕ, zero, suc, ◌+◌, Bool, true, false, Option, none, some, List, [], ◌∷◌, ◌++◌, Str}
use cpp.Prelude.Decimal.{show_nat}
use cpp.Prelude.Result.{Result, ok, throw, ◌>>=◌}
use cpp.BigInt.{BigInt, of_unsigned, of_string, less, add, subtract}
use cpp.BigInt.Multiply.{multiply}
use cpp.BigInt.Divide.{same, divide}

-- The loop of `SqrRoot`
unfoldable pub bisect : ℕ → BigInt → BigInt → BigInt → Result (Option BigInt)
bisect zero l r y = ok none
bisect (suc fuel) l r y = do
  last ← subtract r (of_unsigned 1)
  elim (same l last) [
    | true ↦ ok (some l)
    | false ↦ do
      m ← divide (add l r) (of_unsigned 2)
      elim (less y (multiply m m)) [ true ↦ bisect fuel l m y | false ↦ bisect fuel m r y ]
  ]

-- Enough halvings for a number of so many digits: four for each.
abbrev pub halvings : BigInt → ℕ
halvings [] = 0
halvings (d ∷ a) = 4 + halvings a

-- `SqrRoot`
unfoldable pub sqr_root : BigInt → Result (Option BigInt)
unfolding bisect
sqr_root y = bisect (suc (halvings y)) (of_unsigned 0) (add y (of_unsigned 1)) y

-- `Answer`, from the root on.
unfoldable pub half_below : Option BigInt → Result (Option BigInt)
half_below none = ok none
half_below (some r) = do s ← subtract r (of_unsigned 1); n ← divide s (of_unsigned 2); ok (some n)

-- `Answer`
unfoldable pub answer : BigInt → Result (Option BigInt)
unfolding sqr_root half_below
answer sum = do r ← sqr_root (add (multiply (of_unsigned 8) sum) (of_unsigned 1)); half_below r

unfoldable pub print_digits : List ℕ → Str
print_digits [] = []
print_digits (d ∷ digits) = show_nat d ++ print_digits digits

-- `operator<<`: each digit as a number, from the last to the first.
unfoldable pub print_number : BigInt → Str
unfolding print_digits
print_number a = print_digits (reverse a)

-- `main`, on the text that is read.
unfoldable pub print_answer : Str → Result (Option Str)
unfolding of_string answer print_number
print_answer target = do
  x ← of_string target
  n ← answer x
  elim n [ none ↦ ok none | some m ↦ ok (some (print_number m)) ]
