-- ===== src/Examples/BigInt.antt =====
-- Numbers of two digits.
use cpp.Prelude.{◌≡◌, some, [], ◌∷◌, arith}
use cpp.Prelude.Result.{ok}
use cpp.BigInt.{BigInt}
use cpp.BigInt.Digits.{value, IsNumber}
use cpp.BigInt.Divide.Value.{Divides, divide-Divides}
use cpp.BigInt.Root.{sqr_root, print_number, print_answer}
use cpp.BigInt.Root.Bisection.{IsRoot, sqr_root-IsRoot}
use cpp.BigInt.Root.Answers.{print_answer-prints}

abbrev ninety_nine : BigInt
ninety_nine = 9 ∷ 9 ∷ []

abbrev twelve : BigInt
twelve = 2 ∷ 1 ∷ []

abbrev fifty_five : BigInt
fifty_five = 5 ∷ 5 ∷ []

abbrev ten : BigInt
ten = 0 ∷ 1 ∷ []

ninety_nine-IsNumber : IsNumber ninety_nine
ninety_nine-IsNumber = ((omega arith, (omega arith, tt)), omega arith)

twelve-IsNumber : IsNumber twelve
twelve-IsNumber = ((omega arith, (omega arith, tt)), omega arith)

fifty_five-IsNumber : IsNumber fifty_five
fifty_five-IsNumber = ((omega arith, (omega arith, tt)), omega arith)

ten-IsNumber : IsNumber ten
ten-IsNumber = ((omega arith, (omega arith, tt)), omega arith)

divide-Divides_example : Divides ninety_nine twelve
divide-Divides_example =
    divide-Divides ninety_nine twelve ninety_nine-IsNumber twelve-IsNumber
      (unfold value in omega arith)

sqr_root-IsRoot_example : (m : BigInt) × (sqr_root ninety_nine ≡ ok (some m)) × IsRoot ninety_nine m
sqr_root-IsRoot_example = sqr_root-IsRoot ninety_nine ninety_nine-IsNumber

print_answer-prints_example : print_answer (print_number fifty_five) ≡ ok (some (print_number ten))
print_answer-prints_example =
    print_answer-prints fifty_five ten fifty_five-IsNumber ten-IsNumber
      (unfold value in omega arith)
