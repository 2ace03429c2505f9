-- ===== src/BigInt/Multiply.antt =====
-- Products: `operator*=` of timus/1153/main.cpp. The entries of the vector `v` are `int` there and
-- natural numbers here: they stay below 81 times the smaller number of digits, which is below 2^31 for
-- numbers of less than ten million digits. Beyond about 26 million digits the program may overflow.
pub mod Value
use cpp.Prelude.{ℕ, zero, ◌+◌, ◌*◌, ◌/◌, ◌%◌, List, [], ◌∷◌, ◌||◌, if◌then◌else◌, length, replicate}
use cpp.BigInt.{BigInt, of_unsigned, is_null, trim}

-- The inner loop for one digit `d`: `v[i + j] += d * b[j]`, with `v` from the index `i` on.
unfoldable pub add_row : ℕ → BigInt → List ℕ → List ℕ
add_row d [] v = v
add_row d (e ∷ b) [] = []
add_row d (e ∷ b) (x ∷ v) = (x + d * e) ∷ add_row d b v

-- The outer loop.
unfoldable pub add_rows : BigInt → BigInt → List ℕ → List ℕ
unfolding add_row
add_rows [] b v = v
add_rows (d ∷ a) b v = elim (add_row d b v) [ [] ↦ [] | x ∷ rest ↦ x ∷ add_rows a b rest ]

-- The loop with the carry `t`; the last carry is dropped.
unfoldable pub carry_digits : ℕ → List ℕ → BigInt
carry_digits t [] = []
carry_digits t (x ∷ v) = ((t + x) % 10) ∷ carry_digits ((t + x) / 10) v

-- `operator*=`
unfoldable pub multiply : BigInt → BigInt → BigInt
unfolding add_rows carry_digits of_unsigned trim
multiply a b =
    if is_null a || is_null b
    then of_unsigned 0
    else trim (carry_digits 0 (add_rows a b (replicate (length a + length b) 0)))
