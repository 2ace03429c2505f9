-- ===== src/Trains/Tickets.antt =====
-- The tickets on each interval of the two routes.
use mathlib.Core.Path.{subst}
use cpp.Prelude.{
  inl, inr, ℕ, zero, suc, ◌+◌, ◌-◌, ◌%◌, ◌^◌, ◌≤◌, ◌<◌, ◌≡◌, refl, Bool-cases, ◌&&◌, [], ◌∷◌, arith,
  ltb, leb, ◌==◌, if◌then◌else◌, length, min, max,
}
use cpp.Prelude.Result.{ok}
use cpp.Trains.{Interval, Route, add_tickets, register_from, register, Routes, register_cell}

-- The tickets of the interval `k`.
unfoldable pub tickets_at : ℕ → Route → ℕ
tickets_at k [] = 0
tickets_at zero (v ∷ intervals) = v.tickets
tickets_at (suc k) (v ∷ intervals) = tickets_at k intervals

-- What a ticket between two stations adds to the interval `k`.
abbrev pub passing : ℕ → ℕ → ℕ → ℕ → ℕ
passing k start end tickets = if leb start k && ltb k end then tickets else 0

-- A route of the same length, with more on each interval.
pub record IsAdded (more : ℕ → ℕ) (intervals intervals' : Route) : Type 0 where
  pub same_length : length intervals' ≡ length intervals
  pub sums :
      (k : ℕ) → k < length intervals → tickets_at k intervals' ≡ tickets_at k intervals + more k

added_first :
    (tickets : ℕ) (v : Interval) (intervals : Route) (k : ℕ)
    → v.tickets + tickets < 2 ^ 64
    → tickets_at k (record v { tickets = (v.tickets + tickets) % 2 ^ 64 } ∷ intervals)
      ≡ tickets_at k (v ∷ intervals) + (if k == 0 then tickets else 0)
unfolding tickets_at
added_first tickets v intervals zero b = omega (arith, b)
added_first tickets v intervals (suc k) b = ground arith

added_later :
    (i tickets : ℕ) (v : Interval) (intervals rest : Route) (k : ℕ)
    → k < length (v ∷ intervals)
    → IsAdded (λ k. if k == i then tickets else 0) intervals rest
    → tickets_at k (v ∷ rest) ≡ tickets_at k (v ∷ intervals) + (if k == suc i then tickets else 0)
unfolding tickets_at
added_later i tickets v intervals rest zero l w = ground arith
added_later i tickets v intervals rest (suc k) l w = ground (arith, w.sums k (omega (arith, l)))

add_tickets-IsAdded :
    (i tickets : ℕ) (intervals : Route)
    → i < length intervals
    → tickets_at i intervals + tickets < 2 ^ 64
    → (intervals' : Route) × (add_tickets i tickets intervals ≡ ok intervals')
      × IsAdded (λ k. if k == i then tickets else 0) intervals intervals'
unfolding add_tickets tickets_at
add_tickets-IsAdded i tickets [] h b = absurd (omega (arith, h))
add_tickets-IsAdded zero tickets (v ∷ intervals) h b = (
  record v { tickets = (v.tickets + tickets) % 2 ^ 64 } ∷ intervals,
  refl,
  record { same_length = refl; sums = λ k l. added_first tickets v intervals k b },
)
add_tickets-IsAdded (suc i) tickets (v ∷ intervals) h b =
    let (rest, e, w) = add_tickets-IsAdded i tickets intervals (omega (arith, h)) b in
    (
      v ∷ rest,
      ground (arith, e),
      record {
        same_length = ground (arith, w.same_length);
        sums = λ k l. added_later i tickets v intervals rest k l w;
      },
    )

-- Room for so many more tickets on every interval from `i` on.
abbrev pub HasRoom : ℕ → ℕ → Route → Type 0
HasRoom i more intervals =
    (k : ℕ) → i ≤ k → k < length intervals → tickets_at k intervals + more < 2 ^ 64

register_from-IsAdded :
    (i n tickets : ℕ) (intervals : Route)
    → i + n ≤ length intervals
    → HasRoom i tickets intervals
    → (intervals' : Route) × (register_from i n tickets intervals ≡ ok intervals')
      × IsAdded (λ k. passing k i (i + n) tickets) intervals intervals'
unfolding register_from
register_from-IsAdded i zero tickets intervals h b =
    (intervals, refl, record { same_length = refl; sums = λ k l. ground arith })
register_from-IsAdded i (suc n) tickets intervals h b =
    let (v, e, w) =
      add_tickets-IsAdded i tickets intervals (omega (arith, h))
        (b i (omega arith) (omega (arith, h))) in
    let room : HasRoom (i + 1) tickets v =
      λ k l m. ground (arith, l, b k (omega (arith, l)), w.sums k, w.same_length, m) in
    let (v', f, w') =
      register_from-IsAdded (i + 1) n tickets v (omega (arith, h, w.same_length)) room in
    (
      v',
      ground (arith, e, f),
      record {
        same_length = omega (arith, w.same_length, w'.same_length);
        sums = λ k l. ground (arith, l, w.sums k l, w'.sums k (omega (arith, l, w.same_length)));
      },
    )

-- Both routes.
pub record AreAdded (forward backward : ℕ → ℕ) (r r' : Routes) : Type 0 where
  pub forwards : IsAdded forward r.forward r'.forward
  pub backwards : IsAdded backward r.backward r'.backward

-- Both routes have `n` intervals, with room for so many more tickets.
pub record HaveRoom (n more : ℕ) (r : Routes) : Type 0 where
  pub forward_length : length r.forward ≡ n
  pub backward_length : length r.backward ≡ n
  pub forward_room : (k : ℕ) → k < n → tickets_at k r.forward + more < 2 ^ 64
  pub backward_room : (k : ℕ) → k < n → tickets_at k r.backward + more < 2 ^ 64

register-IsAdded :
    (n i j tickets : ℕ) (intervals : Route)
    → length intervals ≡ n
    → i < n
    → j < n
    → ((k : ℕ) → k < n → tickets_at k intervals + tickets < 2 ^ 64)
    → (intervals' : Route) × (register i j tickets intervals ≡ ok intervals')
      × IsAdded (λ k. passing k (min i j) (max i j) tickets) intervals intervals'
unfolding register
register-IsAdded n i j tickets intervals e h l b =
    let s : min i j + (max i j - min i j) ≡ max i j = omega arith in
    let (v, f, w) =
      register_from-IsAdded (min i j) (max i j - min i j) tickets intervals (omega (arith, e, h, l))
        (λ k p q. b k (omega (arith, q, e))) in
    (v, f, subst (λ m. IsAdded (λ k. passing k (min i j) m tickets) intervals v) s w)

unchanged-IsAdded :
    (intervals : Route) (more : ℕ → ℕ) → ((k : ℕ) → more k ≡ 0) → IsAdded more intervals intervals
unchanged-IsAdded intervals more z = record { same_length = refl; sums = λ k l. omega (arith, z k) }

IsAdded-same :
    {f g : ℕ → ℕ} {intervals intervals' : Route}
    → IsAdded f intervals intervals'
    → ((k : ℕ) → f k ≡ g k)
    → IsAdded g intervals intervals'
IsAdded-same w e = record {
  same_length = w.same_length;
  sums = λ k l. omega (arith, w.sums k l, e k);
}

pub register_cell-AreAdded :
    (n i j tickets : ℕ) (r : Routes)
    → i < n
    → j < n
    → HaveRoom n tickets r
    → (r' : Routes) × (register_cell i j tickets r ≡ ok r')
      × AreAdded (λ k. passing k i j tickets) (λ k. passing k j i tickets) r r'
unfolding register_cell
register_cell-AreAdded n i j tickets r h l w = elim (Bool-cases (ltb i j)) [
  | inl e ↦
      let (v, f, q) =
        register-IsAdded n i j tickets r.forward w.forward_length h l w.forward_room in
      (
        record r { forward = v },
        ground (arith, e, f),
        record {
          forwards = IsAdded-same q (λ k. ground (arith, e));
          backwards =
              unchanged-IsAdded r.backward (λ k. passing k j i tickets) (λ k. ground (arith, e));
        },
      )
  | inr e ↦ elim (Bool-cases (ltb j i)) [
    | inl g ↦
        let (v, f, q) =
          register-IsAdded n i j tickets r.backward w.backward_length h l w.backward_room in
        (
          record r { backward = v },
          ground (arith, e, g, f),
          record {
            forwards =
                unchanged-IsAdded r.forward (λ k. passing k i j tickets) (λ k. ground (arith, g));
            backwards = IsAdded-same q (λ k. ground (arith, g));
          },
        )
    | inr g ↦ (
      r,
      ground (arith, e, g),
      record {
        forwards =
            unchanged-IsAdded r.forward (λ k. passing k i j tickets) (λ k. ground (arith, e, g));
        backwards =
            unchanged-IsAdded r.backward (λ k. passing k j i tickets) (λ k. ground (arith, e, g));
      },
    )
  ]
]
