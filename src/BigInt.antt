-- ===== src/BigInt.antt =====
-- Numbers of any size: timus/1153/main.cpp (`BigInt`). A number is its decimal digits, the lowest
-- one first. The functions on references return the number that is left.
pub mod Digits
pub mod Divide
pub mod Multiply
pub mod Order
pub mod Root
pub mod Sums
pub mod Steps
pub mod Trim
use cpp.Prelude.{
  ℕ, zero, suc, ◌+◌, ◌-◌, ◌*◌, ◌/◌, ◌%◌, Bool, true, false, List, [], ◌∷◌, ◌++◌, ltb, ◌==◌,
  if◌then◌else◌, not, length, get_or, replicate, Str,
}
use cpp.Prelude.Decimal.{is_digit}
use cpp.Prelude.Result.{Result, ok, throw, thrown_string, undefined_behaviour, ◌>>=◌}

-- The field `digits`
abbrev pub BigInt : Type 0
BigInt = List ℕ

-- `BigInt(unsigned long long)`, on fuel above the number.
unfoldable pub push_digits : ℕ → ℕ → BigInt
push_digits zero n = []
push_digits (suc fuel) n =
    let more = push_digits fuel (n / 10) in (n % 10) ∷ (if n / 10 == 0 then [] else more)

unfoldable pub of_unsigned : ℕ → BigInt
unfolding push_digits
of_unsigned n = push_digits (suc n) n

-- `BigInt(string&)`: the last character becomes the first digit.
unfoldable pub push_chars : Str → BigInt → Result BigInt
push_chars [] digits = ok digits
push_chars (c ∷ s) digits =
    let rest = push_chars s ((c - 48) ∷ digits) in if is_digit c then rest else throw thrown_string

unfoldable pub of_string : Str → Result BigInt
unfolding push_chars
of_string s = push_chars s []

-- `Null`
abbrev pub is_null : BigInt → Bool
is_null (d ∷ []) = d == 0
is_null _ = false

-- The loop of `operator<` from the digit below `n` down.
unfoldable pub less_from : ℕ → BigInt → BigInt → Bool
less_from zero a b = false
less_from (suc n) a b =
    let rest = less_from n a b in
    if get_or a n 0 == get_or b n 0 then rest else ltb (get_or a n 0) (get_or b n 0)

-- `operator<`
unfoldable pub less : BigInt → BigInt → Bool
unfolding less_from
less a b = if length a == length b then less_from (length a) a b else ltb (length a) (length b)

-- `operator++`: the nines become zeros up to the first other digit.
unfoldable pub increment : BigInt → BigInt
increment [] = 1 ∷ []
increment (d ∷ a) = let rest = increment a in if d == 9 then 0 ∷ rest else suc d ∷ a

-- The zeros become nines up to the first other digit. Without one, the byte after the digits is
-- decremented.
unfoldable pub borrow : BigInt → Result BigInt
borrow [] = throw undefined_behaviour
borrow (zero ∷ a) = do rest ← borrow a; ok (9 ∷ rest)
borrow (suc d ∷ a) = ok (d ∷ a)

-- The last digit is removed when it is zero.
unfoldable pub pop_zero : BigInt → BigInt
pop_zero [] = []
pop_zero (d ∷ []) = if d == 0 then [] else d ∷ []
pop_zero (d ∷ e ∷ a) = d ∷ pop_zero (e ∷ a)

-- `operator--`
unfoldable pub decrement : BigInt → Result BigInt
unfolding borrow pop_zero
decrement [] = throw undefined_behaviour
decrement (zero ∷ []) = throw thrown_string
decrement (suc d ∷ []) = ok (d ∷ [])
decrement (d ∷ e ∷ a) = do rest ← borrow (d ∷ e ∷ a); ok (pop_zero rest)

-- The loop of `operator+=` with the carry `t`, and the carry that is pushed after it.
unfoldable pub add_digits : ℕ → BigInt → BigInt → BigInt
add_digits t [] b = if t == 0 then [] else t ∷ []
add_digits t (d ∷ a) [] = ((d + t) % 10) ∷ add_digits ((d + t) / 10) a []
add_digits t (d ∷ a) (e ∷ b) = ((d + e + t) % 10) ∷ add_digits ((d + e + t) / 10) a b

-- `operator+=`: the first number is filled up with zeros.
unfoldable pub add : BigInt → BigInt → BigInt
unfolding add_digits
add a b = add_digits 0 (a ++ replicate (length b - length a) 0) b

-- The loop of `operator-=`. The variable `t` of the source is 0 or -1: it is `- t` here, and a
-- negative sum is met by the borrow of 10.
unfoldable pub subtract_digits : ℕ → BigInt → BigInt → BigInt
subtract_digits t [] b = []
subtract_digits t (d ∷ a) [] =
    if ltb d t then (d + 10 - t) ∷ subtract_digits 1 a [] else (d - t) ∷ subtract_digits 0 a []
subtract_digits t (d ∷ a) (e ∷ b) =
    if ltb d (e + t)
    then (d + 10 - (e + t)) ∷ subtract_digits 1 a b
    else (d - (e + t)) ∷ subtract_digits 0 a b

-- The zeros at the end are removed.
unfoldable pub pop_zeros : BigInt → BigInt
pop_zeros [] = []
pop_zeros (d ∷ a) = elim (pop_zeros a) [
  | [] ↦ if d == 0 then [] else d ∷ []
  | e ∷ rest ↦ d ∷ e ∷ rest
]

-- All of them but the first digit.
unfoldable pub trim : BigInt → BigInt
unfolding pop_zeros
trim [] = []
trim (d ∷ a) = d ∷ pop_zeros a

-- `operator-=`
unfoldable pub subtract : BigInt → BigInt → Result BigInt
unfolding less subtract_digits trim
subtract a b = if less a b then throw thrown_string else ok (trim (subtract_digits 0 a b))

-- The loop of `divide_by_2` from the last digit to the first, and what it adds to the next one.
unfoldable pub halve_digits : BigInt → BigInt × ℕ
halve_digits [] = ([], 0)
halve_digits (d ∷ a) = let (rest, more) = halve_digits a in ((d / 2 + more) ∷ rest, (d % 2) * 5)

-- `divide_by_2`
unfoldable pub divide_by_2 : BigInt → BigInt
unfolding halve_digits trim
divide_by_2 a = trim (halve_digits a).0
