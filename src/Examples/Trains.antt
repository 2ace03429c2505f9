-- ===== src/Examples/Trains.antt =====
-- The tickets between three stations.
use cpp.Prelude.{ℕ, ◌^◌, ◌≤◌, ◌<◌, ◌≡◌, refl, List, [], ◌∷◌, arith}
use cpp.Prelude.Result.{ok}
use cpp.Trains.{carriages, intervals_from}
use cpp.Trains.Sums.{total}
use cpp.Trains.Seats.{HasSeats, carriages-least}

abbrev rows : List (List ℕ)
rows = (0 ∷ 30 ∷ 10 ∷ []) ∷ (5 ∷ 0 ∷ 7 ∷ []) ∷ (40 ∷ 50 ∷ 0 ∷ []) ∷ []

rows-total : total rows < 2 ^ 64
unfolding total
rows-total = omega arith

three_carriages : carriages 3 rows ≡ ok 3
unfolding carriages intervals_from
three_carriages = refl

carriages-least_example :
    (c : ℕ) × (carriages 3 rows ≡ ok c) × HasSeats 3 rows c × ((d : ℕ) → HasSeats 3 rows d → c ≤ d)
carriages-least_example =
    carriages-least 3 rows (omega arith) refl (refl, (refl, (refl, tt))) rows-total
