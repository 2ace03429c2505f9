-- ===== src/BigInt/Divide.antt =====
-- Quotients and remainders: `operator/=` and `operator%=` of timus/1153/main.cpp. The loops go over
-- the digits from the last to the first, which stand here in this order.
pub mod Guess
pub mod Value
use mathlib.Core.List.{reverse}
use cpp.Prelude.{ℕ, zero, suc, Bool, not, List, [], ◌∷◌, if◌then◌else◌, str_eq}
use cpp.Prelude.Result.{Result, ok, throw, thrown_string, undefined_behaviour, ◌>>=◌}
use cpp.BigInt.{BigInt, of_unsigned, is_null, less, add, subtract}
use cpp.BigInt.Multiply.{multiply}

-- `t * 10 + d`
abbrev pub push_low : BigInt → ℕ → BigInt
push_low t d = add (multiply t (of_unsigned 10)) (of_unsigned d)

-- The first loop: digits are taken while the number they make is less than `b`. The remainder `t`,
-- and the digits that are left. A read below the first digit is undefined.
unfoldable pub bring_down : BigInt → List ℕ → BigInt → Result (BigInt × List ℕ)
bring_down t [] b = throw undefined_behaviour
bring_down t (d ∷ digits) b =
    let rest = bring_down (push_low t d) digits b in
    if less (push_low t d) b then rest else ok (t, d ∷ digits)

-- `for (cc = 9; cc * b > t; cc--)`
unfoldable pub guess : ℕ → BigInt → BigInt → ℕ
guess zero b t = zero
guess (suc cc) b t =
    let rest = guess cc b t in if less t (multiply (of_unsigned (suc cc)) b) then rest else suc cc

-- The second loop: a digit of the quotient for each digit that is left. The digits of `cat` stand
-- with the last one first, which is the order in which they are copied back.
unfoldable pub long_division : BigInt → List ℕ → BigInt → BigInt → Result (BigInt × BigInt)
long_division t [] b cat = ok (cat, t)
long_division t (d ∷ digits) b cat = do
  rest ← subtract (push_low t d) (multiply (of_unsigned (guess 9 b (push_low t d))) b)
  long_division rest digits b (guess 9 b (push_low t d) ∷ cat)

-- Both loops: the quotient and the remainder.
unfoldable pub divide_digits : BigInt → BigInt → Result (BigInt × BigInt)
divide_digits a b = do
  (t, digits) ← bring_down (of_unsigned 0) (reverse a) b
  long_division t digits b []

-- `operator==`
abbrev pub same : BigInt → BigInt → Bool
same a b = str_eq a b

-- `operator/=`
unfoldable pub divide : BigInt → BigInt → Result BigInt
divide a b =
    if is_null b
    then throw thrown_string
    else if less a b
    then ok (of_unsigned 0)
    else if same a b
    then ok (of_unsigned 1)
    else (do (q, t) ← divide_digits a b; ok q)

-- `operator%=`
unfoldable pub modulo : BigInt → BigInt → Result BigInt
modulo a b =
    if is_null b
    then throw thrown_string
    else if less a b
    then ok a
    else if same a b
    then ok (of_unsigned 0)
    else (do (q, t) ← divide_digits a b; ok t)
