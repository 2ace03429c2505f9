-- ===== src/ByteOrder.antt =====
-- The order of the bytes of a number: timus/2138/main.cpp. The powers of `std::pow` are exact, and a
-- double that is no 32-bit number is not converted to one.
pub mod Swaps
use cpp.Prelude.{
  ℕ, zero, suc, ◌+◌, ◌-◌, ◌*◌, ◌/◌, ◌%◌, ◌^◌, Bool, true, false, not, Option, none, some, List, [],
  ◌∷◌, ltb, if◌then◌else◌, Str, bytes, str_eq,
}
use cpp.Prelude.Result.{Result, ok, throw, thrown_string, undefined_behaviour, ◌>>=◌}

abbrev pub base : ℕ
base = 256

-- `coefficients[i] = x` on `std::array`
unfoldable pub store : ℕ → ℕ → List ℕ → Result (List ℕ)
store i x [] = throw undefined_behaviour
store zero x (c ∷ coefficients) = ok (x ∷ coefficients)
store (suc i) x (c ∷ coefficients) = do rest ← store i x coefficients; ok (c ∷ rest)

-- `i++` or `i--` on `std::size_t`
abbrev pub next_index : Bool → ℕ → ℕ
next_index good i = if good then (i + 1) % 2 ^ 64 else (i + (2 ^ 64 - 1)) % 2 ^ 64

-- The loop of `ConvertNumberToBase256`, on fuel.
unfoldable pub convert_from : Bool → ℕ → ℕ → ℕ → List ℕ → Result (Option (List ℕ))
unfolding store
convert_from good zero i value coefficients = ok none
convert_from good (suc fuel) i value coefficients = do
  stored ← store i (value % base) coefficients
  elim (ltb (value / base) base) [
    | true ↦ do last ← store (next_index good i) (value / base) stored; ok (some last)
    | false ↦ convert_from good fuel (next_index good i) (value / base) stored
  ]

-- `ConvertNumberToBase256`
unfoldable pub convert_number_to_base256 : Bool → ℕ → Result (Option (List ℕ))
unfolding convert_from
convert_number_to_base256 good value =
    convert_from good 4 (if good then 0 else 3) value (0 ∷ 0 ∷ 0 ∷ 0 ∷ [])

-- The conversion of a double that has no fraction.
abbrev pub to_uint32 : ℕ → Result ℕ
to_uint32 x = if ltb x (2 ^ 32) then ok x else throw undefined_behaviour

-- The loop of `ConvertBase256ToNumber`, from the index `i` of an array of `size`.
unfoldable pub convert_back_from : Bool → ℕ → ℕ → ℕ → List ℕ → Result ℕ
convert_back_from good size i value [] = ok value
convert_back_from good size i value (c ∷ coefficients) = do
  value' ← to_uint32 (value + c * base ^ (if good then size - i - 1 else i))
  convert_back_from good size (i + 1) value' coefficients

-- `ConvertBase256ToNumber`
unfoldable pub convert_base256_to_number : Bool → List ℕ → Result ℕ
unfolding convert_back_from
convert_base256_to_number good coefficients = convert_back_from good 4 0 0 coefficients

-- The kinds of `main`.
unfoldable pub is_good : Str → Result Bool
unfolding str_eq
is_good kind =
    if str_eq kind (bytes "GOOD")
    then ok true
    else if str_eq kind (bytes "BAD")
    then ok false
    else throw thrown_string

-- `main` after the kind is read.
unfoldable pub swap : Bool → ℕ → Result (Option ℕ)
unfolding convert_number_to_base256 convert_base256_to_number
swap good value = do
  target ← convert_number_to_base256 (not good) value
  elim target [
    | none ↦ ok none
    | some coefficients ↦ do
      result ← convert_base256_to_number (not good) coefficients
      ok (some result)
  ]

-- `main`
unfoldable pub answer : Str → ℕ → Result (Option ℕ)
unfolding is_good swap
answer kind value = do good ← is_good kind; swap good value
