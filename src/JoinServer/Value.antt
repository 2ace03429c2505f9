-- ===== src/JoinServer/Value.antt =====
-- Row cells and row data: 11_join_server/table.hpp and table.cpp (`TValue`, `TRowData`).
use cpp.Prelude.{
  ℕ, ◌+◌, ◌-◌, Bool, true, false, Option, some, List, [], ◌∷◌, ◌++◌, ◌==◌, if◌then◌else◌, length,
  get_elem?, drop, replicate, Str, str_eq,
}
use cpp.Prelude.Int.{ℤ, eq_ℤ, int_of_size}
use cpp.Prelude.Result.{Result, ok, throw, invalid_argument, length_error}

-- `std::variant<int, std::string, TNull>`
pub data Value : Type 0 where
  int : ℤ → Value
  text : Str → Value
  null : Value

-- `operator!=` of the variant, negated; two `TNull` are equal.
unfoldable pub value_eq : Value → Value → Bool
unfolding str_eq
value_eq (int a) (int b) = eq_ℤ a b
value_eq (text a) (text b) = str_eq a b
value_eq null null = true
value_eq _ _ = false

pub record RowData : Type 0 where
  pub values : List Value

-- `Get<int>`: a position out of range and a value of another type are both refused.
int_of_cell : Option Value → Result ℤ
int_of_cell (some (int v)) = ok v
int_of_cell _ = throw invalid_argument

unfoldable pub get_int : RowData → ℕ → Result ℤ
unfolding int_of_cell
get_int row position = int_of_cell (get_elem? row.values position)

-- `TRowData::Empty`
unfoldable pub empty_row : ℕ → ℕ → RowData
empty_row row_id capacity = record {
  values = int (int_of_size row_id) ∷ replicate (capacity - 1) null;
}

-- `reserve` is given the sizes' sum minus 1, and refuses the huge number that 0 - 1 wraps to.
unfoldable pub merge_with : RowData → RowData → Result RowData
merge_with row other =
    if length row.values + length other.values == 0
    then throw length_error
    else ok (record { values = row.values ++ drop 1 other.values })

unfoldable pub values_eq : List Value → List Value → Bool
unfolding value_eq
values_eq [] [] = true
values_eq (a ∷ xs) (b ∷ ys) = let rest = values_eq xs ys in if value_eq a b then rest else false
values_eq _ _ = false

-- `operator==`: the sizes, then every position.
unfoldable pub row_eq : RowData → RowData → Bool
unfolding values_eq
row_eq row other =
    if length row.values == length other.values then values_eq row.values other.values else false
