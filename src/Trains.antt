-- ===== src/Trains.antt =====
-- The carriages of the trains: timus/1869/main.cpp. The input is the number of stations and the rows of
-- the tickets that are sold from one station to another.
pub mod Tickets
pub mod Sums
pub mod Seats
use cpp.Prelude.{
  ℕ, zero, suc, ◌+◌, ◌-◌, ◌/◌, ◌%◌, ◌^◌, Bool, List, [], ◌∷◌, ltb, ◌==◌, if◌then◌else◌, length, min,
  max,
}
use cpp.Prelude.Result.{Result, ok, throw, assertion_failed, undefined_behaviour, ◌>>=◌}

abbrev pub seats_per_carriage : ℕ
seats_per_carriage = 36

-- `TInterval`
pub record Interval : Type 0 where
  pub first : ℕ
  pub last : ℕ
  pub tickets : ℕ

-- `TRoute`
abbrev pub Route : Type 0
Route = List Interval

-- The loop of the constructor, from the station `i`, for so many stations.
unfoldable pub intervals_from : ℕ → ℕ → Route
intervals_from i zero = []
intervals_from i (suc n) =
    record { first = i; last = i + 1; tickets = 0 } ∷ intervals_from (i + 1) n

-- The constructor.
abbrev pub make_route : ℕ → Route
make_route stations = intervals_from 1 stations

-- `intervals[i].tickets += tickets`
unfoldable pub add_tickets : ℕ → ℕ → Route → Result Route
add_tickets i tickets [] = throw undefined_behaviour
add_tickets zero tickets (v ∷ intervals) =
    ok (record v { tickets = (v.tickets + tickets) % 2 ^ 64 } ∷ intervals)
add_tickets (suc i) tickets (v ∷ intervals) = do
  rest ← add_tickets i tickets intervals
  ok (v ∷ rest)

-- The loop of `Register`, from the index `i`, for so many intervals.
unfoldable pub register_from : ℕ → ℕ → ℕ → Route → Result Route
unfolding add_tickets
register_from i zero tickets intervals = ok intervals
register_from i (suc n) tickets intervals = do
  intervals' ← add_tickets i tickets intervals
  register_from (i + 1) n tickets intervals'

-- `Register`
unfoldable pub register : ℕ → ℕ → ℕ → Route → Result Route
unfolding register_from
register first last tickets intervals =
    register_from (min first last) (max first last - min first last) tickets intervals

-- `std::max_element`, for the largest number of tickets after `largest`.
unfoldable pub max_element : ℕ → Route → ℕ
max_element largest [] = largest
max_element largest (v ∷ intervals) =
    max_element (if ltb largest v.tickets then v.tickets else largest) intervals

-- `MaxTicketsPerInterval`
unfoldable pub max_tickets_per_interval : Route → Result ℕ
unfolding max_element
max_tickets_per_interval [] = throw undefined_behaviour
max_tickets_per_interval (v ∷ intervals) = ok (max_element v.tickets intervals)

-- The pair of the routes, forward and backward.
pub record Routes : Type 0 where
  pub forward : Route
  pub backward : Route

-- One round of the inner loop of `ToRoutes`.
unfoldable pub register_cell : ℕ → ℕ → ℕ → Routes → Result Routes
unfolding register
register_cell i j tickets r =
    if ltb i j
    then (do route ← register i j tickets r.forward; ok (record r { forward = route }))
    else if ltb j i
    then (do route ← register i j tickets r.backward; ok (record r { backward = route }))
    else ok r

-- The inner loop, from the column `j`.
unfoldable pub register_row : ℕ → ℕ → List ℕ → Routes → Result Routes
unfolding register_cell
register_row i j [] r = ok r
register_row i j (tickets ∷ row) r = do
  r' ← register_cell i j tickets r
  register_row i (j + 1) row r'

-- The outer loop, from the row `i`.
unfoldable pub register_rows : ℕ → ℕ → List (List ℕ) → Routes → Result Routes
unfolding register_row
register_rows stations i [] r = ok r
register_rows stations i (row ∷ rows) r =
    if length row == stations
    then (do r' ← register_row i 0 row r; register_rows stations (i + 1) rows r')
    else throw assertion_failed

-- `ToRoutes`
unfoldable pub to_routes : ℕ → List (List ℕ) → Result Routes
unfolding register_rows
to_routes stations rows =
    if length rows == stations
    then register_rows stations 0 rows
        (record { forward = make_route stations; backward = make_route stations })
    else throw assertion_failed

-- The end of `main`.
unfoldable pub carriages_for : ℕ → ℕ
carriages_for tickets =
    if tickets % seats_per_carriage == 0
    then tickets / seats_per_carriage
    else tickets / seats_per_carriage + 1

-- `main`
unfoldable pub carriages : ℕ → List (List ℕ) → Result ℕ
unfolding to_routes max_tickets_per_interval carriages_for
carriages stations rows = do
  r ← to_routes stations rows
  forward ← max_tickets_per_interval r.forward
  backward ← max_tickets_per_interval r.backward
  ok (carriages_for (max forward backward))
