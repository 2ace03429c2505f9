-- ===== src/Trains/Seats.antt =====
-- The number of carriages is the least one with a seat for every ticket on every interval.
use mathlib.Core.Path.{subst}
use cpp.Prelude.{
  inl, inr, ℕ, zero, suc, ◌+◌, ◌*◌, ◌^◌, ◌≤◌, ◌<◌, ◌≡◌, ◌⊎◌, refl, sym, Bool-cases, List, [], ◌∷◌,
  arith, ltb, if◌then◌else◌, length, max,
}
use cpp.Prelude.Result.{ok}
use cpp.Trains.{
  seats_per_carriage, Interval, Route, intervals_from, make_route, Routes, to_routes, max_element,
  max_tickets_per_interval, carriages_for, carriages,
}
use cpp.Trains.Tickets.{tickets_at, HaveRoom}
use cpp.Trains.Sums.{total, forward_on, backward_on, AreSquare, register_rows-AreAdded}

intervals_from-length : (i n : ℕ) → length (intervals_from i n) ≡ n
unfolding intervals_from
intervals_from-length i zero = refl
intervals_from-length i (suc n) = ground (arith, intervals_from-length (i + 1) n)

intervals_from-tickets_at : (k i n : ℕ) → tickets_at k (intervals_from i n) ≡ 0
unfolding intervals_from tickets_at
intervals_from-tickets_at k i zero = refl
intervals_from-tickets_at zero i (suc n) = refl
intervals_from-tickets_at (suc k) i (suc n) = intervals_from-tickets_at k (i + 1) n

-- The largest of a number and the tickets of the intervals: it is above all, and equal to one.
record IsMax (largest : ℕ) (intervals : Route) (m : ℕ) : Type 0 where
  start : largest ≤ m
  above : (k : ℕ) → k < length intervals → tickets_at k intervals ≤ m
  reached : (m ≡ largest) ⊎ ((k : ℕ) × (k < length intervals) × (tickets_at k intervals ≡ m))

larger : ℕ → Interval → ℕ
larger largest v = if ltb largest v.tickets then v.tickets else largest

above_first :
    (largest m : ℕ) (v : Interval) (intervals : Route)
    → IsMax (larger largest v) intervals m
    → (k : ℕ) → k < length (v ∷ intervals)
    → tickets_at k (v ∷ intervals) ≤ m
unfolding tickets_at larger
above_first largest m v intervals w zero l = ground (arith, w.start)
above_first largest m v intervals w (suc k) l = w.above k (omega (arith, l))

max_element-IsMax :
    (largest : ℕ) (intervals : Route) → IsMax largest intervals (max_element largest intervals)
unfolding max_element tickets_at larger
max_element-IsMax largest [] = record {
  start = omega arith;
  above = λ k l. absurd (omega (arith, l));
  reached = inl refl;
}
max_element-IsMax largest (v ∷ intervals) =
    let m = max_element (larger largest v) intervals in
    let w = max_element-IsMax (larger largest v) intervals in
    record {
      start = ground (arith, w.start);
      above = above_first largest m v intervals w;
      reached = elim w.reached [
        | inl e ↦ elim (Bool-cases (ltb largest v.tickets)) [
          | inl f ↦ inr (0, omega arith, ground (arith, e, f))
          | inr f ↦ inl (ground (arith, e, f))
        ]
        | inr (k, l, e) ↦ inr (suc k, omega (arith, l), e)
      ];
    }

max_tickets-IsMax :
    (n : ℕ) (intervals : Route)
    → 0 < n
    → length intervals ≡ n
    → (m : ℕ) × (max_tickets_per_interval intervals ≡ ok m)
      × ((k : ℕ) → k < n → tickets_at k intervals ≤ m)
      × ((k : ℕ) × (k < n) × (tickets_at k intervals ≡ m))
unfolding max_tickets_per_interval tickets_at larger
max_tickets-IsMax n [] h l = absurd (omega (arith, h, l))
max_tickets-IsMax n (v ∷ intervals) h l =
    let m = max_element v.tickets intervals in
    let w = max_element-IsMax v.tickets intervals in
    let u : IsMax (larger v.tickets v) intervals m =
      subst (λ x. IsMax x intervals m) (ground arith) w in
    (
      m,
      refl,
      λ k p. above_first v.tickets m v intervals u k (omega (arith, p, l)),
      elim w.reached [ inl e ↦ (0, h, sym e) | inr (k, p, e) ↦ (suc k, omega (arith, p, l), e) ],
    )

carriages_for-least :
    (tickets d : ℕ)
    → (tickets ≤ carriages_for tickets * seats_per_carriage)
      × (tickets ≤ d * seats_per_carriage → carriages_for tickets ≤ d)
unfolding carriages_for
carriages_for-least tickets d = (ground arith, λ h. ground (arith, h))

-- There is a seat for every ticket on every interval, in both directions.
abbrev pub HasSeats : ℕ → List (List ℕ) → ℕ → Type 0
HasSeats n rows d =
    (k : ℕ)
    → k < n
    → (forward_on k 0 rows ≤ d * seats_per_carriage)
      × (backward_on k 0 rows ≤ d * seats_per_carriage)

-- For a square matrix of tickets with at least one station and less than 2^64 tickets together, the
-- program returns a number of carriages with a seat for every ticket on every interval, in both
-- directions, and no lower number has them.
pub carriages-least :
    (n : ℕ) (rows : List (List ℕ))
    → 0 < n
    → length rows ≡ n
    → AreSquare n rows
    → total rows < 2 ^ 64
    → (c : ℕ) × (carriages n rows ≡ ok c)
      × HasSeats n rows c
      × ((d : ℕ) → HasSeats n rows d → c ≤ d)
unfolding carriages to_routes
carriages-least n rows h l s b =
    let r : Routes = record { forward = make_route n; backward = make_route n } in
    let w : HaveRoom n (total rows) r = record {
      forward_length = intervals_from-length 1 n;
      backward_length = intervals_from-length 1 n;
      forward_room = λ k p. omega (arith, b, intervals_from-tickets_at k 1 n);
      backward_room = λ k p. omega (arith, b, intervals_from-tickets_at k 1 n);
    } in
    let (r', e, a) = register_rows-AreAdded n 0 rows r (omega (arith, l)) s w in
    let (f, ef, above_f, (kf, pf, qf)) =
      max_tickets-IsMax n r'.forward h (omega (arith, a.forwards.same_length, w.forward_length)) in
    let (g, eg, above_g, (kg, pg, qg)) =
      max_tickets-IsMax n r'.backward h
        (omega (arith, a.backwards.same_length, w.backward_length)) in
    let sf : (k : ℕ) → k < n → tickets_at k r'.forward ≡ forward_on k 0 rows = λ k p. omega (
      arith,
      a.forwards.sums k (omega (arith, p, w.forward_length)),
      intervals_from-tickets_at k 1 n,
    ) in
    let sg : (k : ℕ) → k < n → tickets_at k r'.backward ≡ backward_on k 0 rows = λ k p. omega (
      arith,
      a.backwards.sums k (omega (arith, p, w.backward_length)),
      intervals_from-tickets_at k 1 n,
    ) in
    let (enough, _) = carriages_for-least (max f g) 0 in
    (
      carriages_for (max f g),
      ground (arith, l, e, ef, eg),
      λ k p.
          (omega (arith, enough, above_f k p, sf k p), omega (arith, enough, above_g k p, sg k p)),
      λ d q.
          (carriages_for-least (max f g) d).1
            (omega (arith, (q kf pf).0, (q kg pg).1, qf, qg, sf kf pf, sg kg pg)),
    )
