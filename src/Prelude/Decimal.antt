-- ===== src/Prelude/Decimal.antt =====
-- Decimal numbers in texts: `std::to_string` and `std::stoi`.
use Prim.Native.Nat.{ℕ, zero, suc, ◌+◌, ◌-◌, ◌*◌, ◌/◌, ◌%◌, ◌^◌, ◌<◌}
use mathlib.Core.Path.{◌≡◌, refl, ◌∙◌}
use mathlib.Core.Bool.{Bool, true, false, ◌&&◌, ◌||◌}
use mathlib.Core.List.{[], ◌∷◌, ◌++◌}
use native.Mathlib.Omega.{arith}
use cpp.Prelude.Tests.{ltb, leb, ◌==◌, if◌then◌else◌}
use cpp.Prelude.Text.{Str}
use cpp.Prelude.Int.{ℤ, pos, negsuc, InInt}
use cpp.Prelude.Result.{Result, ok, throw, invalid_argument, out_of_range}

abbrev pub is_digit : ℕ → Bool
is_digit c = leb 48 c && leb c 57

-- Fuel above the number is enough: each round divides it by 10.
unfoldable pub digits : ℕ → ℕ → Str
digits zero n = []
digits (suc fuel) n =
    let more = digits fuel (n / 10) in
    if ltb n 10 then (48 + n) ∷ [] else more ++ (48 + n % 10) ∷ []

-- `std::to_string` of an unsigned number.
unfoldable pub show_nat : ℕ → Str
unfolding digits
show_nat n = digits (suc n) n

-- `std::to_string` of an `int`.
unfoldable pub to_string : ℤ → Str
unfolding show_nat
to_string (pos n) = show_nat n
to_string (negsuc n) = 45 ∷ show_nat (suc n)

-- The value of the leading digits; what follows them is ignored.
unfoldable pub value : ℕ → Str → ℕ
value acc [] = acc
value acc (c ∷ rest) =
    let more = value (acc * 10 + (c - 48)) rest in if is_digit c then more else acc

abbrev pub starts_with_digit : Str → Bool
starts_with_digit [] = false
starts_with_digit (c ∷ rest) = is_digit c

-- `std::isspace`
unfoldable pub is_space : ℕ → Bool
is_space c = (leb 9 c && leb c 13) || c == 32

unfoldable pub skip_spaces : Str → Str
unfolding is_space
skip_spaces [] = []
skip_spaces (c ∷ rest) = let more = skip_spaces rest in if is_space c then more else c ∷ rest

unfoldable pub positive : Str → Result ℤ
unfolding value
positive s =
    if starts_with_digit s
    then (if ltb (value 0 s) (2 ^ 31) then ok (pos (value 0 s)) else throw out_of_range)
    else throw invalid_argument

unfoldable pub negative : Str → Result ℤ
unfolding value
negative s =
    if starts_with_digit s
    then (if leb (value 0 s) (2 ^ 31)
        then ok (if value 0 s == 0 then pos 0 else negsuc (value 0 s - 1))
        else throw out_of_range)
    else throw invalid_argument

signed : Str → Result ℤ
signed [] = throw invalid_argument
signed (c ∷ rest) =
    if c == 45 then negative rest else if c == 43 then positive rest else positive (c ∷ rest)

-- `std::stoi`: spaces, a sign, and at least one digit; the value must fit into an `int`.
unfoldable pub stoi : Str → Result ℤ
unfolding signed positive negative skip_spaces
stoi s = signed (skip_spaces s)

abbrev pub AllDigits : Str → Type 0
AllDigits [] = Unit
AllDigits (c ∷ rest) = (is_digit c ≡ true) × AllDigits rest

AllDigits-append : (xs ys : Str) → AllDigits xs → AllDigits ys → AllDigits (xs ++ ys)
AllDigits-append [] ys a b = b
AllDigits-append (c ∷ xs) ys a b = (a.0, AllDigits-append xs ys a.1 b)

pub value-append :
    (acc : ℕ) (xs ys : Str) → AllDigits xs → value acc (xs ++ ys) ≡ value (value acc xs) ys
unfolding value
value-append acc [] ys a = refl
value-append acc (c ∷ xs) ys a = ground (arith, value-append (acc * 10 + (c - 48)) xs ys a.1, a.0)

digits-AllDigits : (fuel n : ℕ) → AllDigits (digits fuel n)
unfolding digits
digits-AllDigits zero n = tt
digits-AllDigits (suc fuel) n = ground (
  arith,
  digits-AllDigits fuel (n / 10),
  AllDigits-append (digits fuel (n / 10)) ((48 + n % 10) ∷ []),
)

value-digits : (fuel n : ℕ) → n < fuel → value 0 (digits fuel n) ≡ n
unfolding value digits
value-digits zero n h = absurd (omega arith)
value-digits (suc fuel) n h = ground (
  arith,
  value-digits fuel (n / 10),
  value-append 0 (digits fuel (n / 10)) ((48 + n % 10) ∷ []) (digits-AllDigits fuel (n / 10)),
)

pub show_nat-AllDigits : (n : ℕ) → AllDigits (show_nat n)
unfolding show_nat
show_nat-AllDigits n = digits-AllDigits (suc n) n

pub value-show_nat : (n : ℕ) → value 0 (show_nat n) ≡ n
unfolding show_nat
value-show_nat n = value-digits (suc n) n (omega arith)

append-starts_with_digit :
    (xs ys : Str) → AllDigits xs → starts_with_digit ys ≡ true → starts_with_digit (xs ++ ys) ≡ true
append-starts_with_digit [] ys a b = b
append-starts_with_digit (c ∷ xs) ys a b = a.0

pub show_nat-starts_with_digit : (n : ℕ) → starts_with_digit (show_nat n) ≡ true
unfolding show_nat digits
show_nat-starts_with_digit n = ground (
  arith,
  append-starts_with_digit (digits n (n / 10)) ((48 + n % 10) ∷ []) (digits-AllDigits n (n / 10)),
)

-- a text that begins with a digit has no space and no sign to skip
stoi-positive : (s : Str) → starts_with_digit s ≡ true → stoi s ≡ positive s
unfolding stoi
stoi-positive [] h = cc
stoi-positive (c ∷ s) h = ground arith

stoi-negative : (s : Str) → stoi (45 ∷ s) ≡ negative s
unfolding stoi
stoi-negative s = ground arith

-- Every `int` is read back from its decimal text.
pub stoi-to_string : (v : ℤ) → InInt v → stoi (to_string v) ≡ ok v
unfolding to_string
stoi-to_string (pos n) h =
    stoi-positive (show_nat n) (show_nat-starts_with_digit n)
    ∙ (unfold positive in ground (arith, show_nat-starts_with_digit n, value-show_nat n))
stoi-to_string (negsuc n) h =
    stoi-negative (show_nat (suc n))
    ∙ (unfold negative in
        ground (arith, show_nat-starts_with_digit (suc n), value-show_nat (suc n)))
