-- ===== src/Balconies/Optimal.antt =====
-- The search finds the least damage of all orders of shots.
use mathlib.Core.Path.{subst}
use native.Mathlib.Decide.{ℕ_discrete}
use native.Mathlib.Nat.{mul-le-mul, add-mul}
use cpp.Prelude.{
  ℕ, zero, suc, ◌+◌, ◌*◌, ◌≤◌, ◌<◌, ◌≡◌, ◌≢◌, ◌⊎◌, inl, inr, refl, sym, ◌∙◌, true, Bool-cases,
  Option, some, List, [], ◌∷◌, arith, ltb, if◌then◌else◌, length, map,
}
use cpp.Balconies.{
  Disposition, uint64_max, possible_improvement, standing, non_destroyed, shoot, destroy_three,
  step_all, step, minimal_damage,
}
use cpp.Balconies.Alive.{
  alive, monsters_alive, member, stands_of, add_damage-sum, shot_fewer, shot_monsters,
}

-- The damages with which the shooting can end: a shot is made from any balcony that stands, and
-- there are no more shots when none stands.
pub data EndsWith : Disposition → ℕ → Type 0 where
  over : {d : Disposition} → non_destroyed 0 d.balconies ≡ [] → EndsWith d d.cumulative_damage
  shot :
      {d : Disposition} {m : ℕ} (start : ℕ)
      → member start (non_destroyed 0 d.balconies) ≡ true
      → EndsWith (shoot start d) m
      → EndsWith d m

-- More damage than can still be done.
abbrev pub budget : Disposition → ℕ
budget d = d.cumulative_damage + alive d.balconies * monsters_alive d.balconies

abbrev pub IsBounded : Disposition → Type 0
IsBounded d = budget d < uint64_max

budget_step : (d k a k' a' : ℕ) → k' < k → a' ≤ a → d + a' + k' * a' ≤ d + k * a
budget_step d zero a k' a' l h = absurd (omega (arith, l))
budget_step d (suc j) a k' a' l h =
    let k : k' ≤ j = omega (arith, l) in omega (arith, mul-le-mul k h, add-mul j 1 a, h)

shoot-budget :
    (start : ℕ) (d : Disposition)
    → member start (non_destroyed 0 d.balconies) ≡ true
    → IsBounded d
    → (budget (shoot start d) ≤ budget d)
      × (d.cumulative_damage ≤ (shoot start d).cumulative_damage)
      × (alive (shoot start d).balconies < alive d.balconies)
unfolding shoot
shoot-budget start d h b =
    let bs = destroy_three start d.balconies in
    let f = shot_fewer start d.balconies (stands_of start d.balconies h) in
    let g =
      budget_step d.cumulative_damage (alive d.balconies) (monsters_alive d.balconies) (alive bs)
        (monsters_alive bs) f (shot_monsters start d.balconies) in
    let e = add_damage-sum d.cumulative_damage bs (omega (arith, g, b)) in
    (omega (arith, e, g), omega (arith, e), f)

shoot-IsBounded :
    (start : ℕ) (d : Disposition)
    → member start (non_destroyed 0 d.balconies) ≡ true
    → IsBounded d
    → IsBounded (shoot start d)
shoot-IsBounded start d h b = omega (arith, (shoot-budget start d h b).0, b)

EndsWith-ge : (d : Disposition) (m : ℕ) → IsBounded d → EndsWith d m → d.cumulative_damage ≤ m
EndsWith-ge d m b (over h) = omega arith
EndsWith-ge d m b (shot start h e) = omega (
  arith,
  (shoot-budget start d h b).1,
  EndsWith-ge (shoot start d) m (shoot-IsBounded start d h b) e,
)

list_cases : (xs : List ℕ) → (xs ≡ []) ⊎ ((y : ℕ) × (ys : List ℕ) × (xs ≡ y ∷ ys))
list_cases [] = inl refl
list_cases (x ∷ xs) = inr (x, xs, refl)

EndsWith-over :
    (d : Disposition) (m : ℕ)
    → non_destroyed 0 d.balconies ≡ []
    → EndsWith d m
    → m ≡ d.cumulative_damage
unfolding member
EndsWith-over d m n (over h) = refl
EndsWith-over d m n (shot start h e) = absurd (ground (arith, n, h))

abbrev Shoots : List ℕ → Disposition → ℕ → Type 0
Shoots starts d m = (start : ℕ) × (member start starts ≡ true) × EndsWith (shoot start d) m

EndsWith-Shoots :
    (d : Disposition) (m s : ℕ) (starts : List ℕ)
    → non_destroyed 0 d.balconies ≡ s ∷ starts
    → EndsWith d m
    → Shoots (s ∷ starts) d m
EndsWith-Shoots d m s starts n (over h) = absurd (ground (arith, n, h))
EndsWith-Shoots d m s starts n (shot start h e) = (start, ground (arith, n, h), e)

-- A search returns a result that is the old one or one of the possible ends, and at most each of them.
abbrev pub Finds : (ℕ → Type 0) → ℕ → Option ℕ → Type 0
Finds P result found =
    (result' : ℕ) × (found ≡ some result')
    × (result' ≤ result)
    × ((result' ≡ result) ⊎ P result')
    × ((m : ℕ) → P m → result' ≤ m)

no_start : (start : ℕ) → member start [] ≡ true → ⊥
unfolding member
no_start start h = cc

at_front : (s : ℕ) (starts : List ℕ) → member s (s ∷ starts) ≡ true
unfolding member
at_front s starts = ground arith

further :
    (start s : ℕ) (starts : List ℕ) → member start starts ≡ true → member start (s ∷ starts) ≡ true
unfolding member
further start s starts h = ground (arith, h)

in_rest :
    (start s : ℕ) (starts : List ℕ)
    → start ≢ s
    → member start (s ∷ starts) ≡ true
    → member start starts ≡ true
unfolding member
in_rest start s starts n h = ground (arith, n, h)

-- One round of the loop of `Step`.
first_shot :
    (inner : Disposition → ℕ → Option ℕ) (s : ℕ) (d : Disposition) (result : ℕ)
    → ((r : ℕ) → Finds (EndsWith (shoot s d)) r (inner (shoot s d) r))
    → ((m : ℕ) → EndsWith (shoot s d) m → d.cumulative_damage ≤ m)
    → Finds (EndsWith (shoot s d)) result (
        if possible_improvement d.cumulative_damage result
        then inner (shoot s d) result
        else some result)
first_shot inner s d result finds ge = elim (Bool-cases (ltb d.cumulative_damage result)) [
  | inl e ↦ rw e (finds result)
  | inr e ↦ rw e (result, refl, omega arith, inl refl, λ m h. ground (arith, e, ge m h))
]

step_all-Finds :
    (inner : Disposition → ℕ → Option ℕ) (starts : List ℕ) (d : Disposition) (result : ℕ)
    → ((start r : ℕ)
        → member start starts ≡ true
        → Finds (EndsWith (shoot start d)) r (inner (shoot start d) r))
    → ((start m : ℕ)
        → member start starts ≡ true
        → EndsWith (shoot start d) m
        → d.cumulative_damage ≤ m)
    → Finds (Shoots starts d) result (step_all inner starts d result)
unfolding step_all
step_all-Finds inner [] d result finds ge =
    (result, refl, omega arith, inl refl, λ m h. absurd (no_start h.0 h.1))
step_all-Finds inner (s ∷ starts) d result finds ge =
    let (r1, e1, l1, p1, a1) =
      first_shot inner s d result (λ r. finds s r (at_front s starts))
        (λ m. ge s m (at_front s starts)) in
    let (r2, e2, l2, p2, a2) =
      step_all-Finds inner starts d r1 (λ start r h. finds start r (further start s starts h))
        (λ start m h. ge start m (further start s starts h)) in
    (
      r2,
      ground (arith, e1, e2),
      omega (arith, l1, l2),
      elim p2 [
        | inl q ↦ elim p1 [
          | inl r ↦ inl (q ∙ r)
          | inr e ↦ inr (s, at_front s starts, subst (EndsWith (shoot s d)) (sym q) e)
        ]
        | inr (start, h, e) ↦ inr (start, further start s starts h, e)
      ],
      λ m (start, h, e). elim (ℕ_discrete start s) [
        | yes q ↦ omega (arith, l2, a1 m (subst (λ k. EndsWith (shoot k d) m) q e))
        | no q ↦ a2 m (start, in_rest start s starts q h, e)
      ],
    )

step-over :
    (fuel : ℕ) (d : Disposition) (result : ℕ)
    → non_destroyed 0 d.balconies ≡ []
    → Finds (EndsWith d) result (step (suc fuel) d result)
unfolding step
step-over fuel d result n = elim (Bool-cases (ltb d.cumulative_damage result)) [
  | inl e ↦ (
    d.cumulative_damage,
    ground (arith, e, n),
    ground (arith, e),
    inr (over n),
    λ m h. omega (arith, EndsWith-over d m n h),
  )
  | inr e ↦ (
    result,
    ground (arith, e, n),
    omega arith,
    inl refl,
    λ m h. ground (arith, e, EndsWith-over d m n h),
  )
]

pub step-Finds :
    (fuel : ℕ) (d : Disposition) (result : ℕ)
    → IsBounded d
    → alive d.balconies < fuel
    → Finds (EndsWith d) result (step fuel d result)
unfolding step
step-Finds zero d result b l = absurd (omega (arith, l))
step-Finds (suc fuel) d result b l = elim (list_cases (non_destroyed 0 d.balconies)) [
  | inl n ↦ step-over fuel d result n
  | inr (s, starts, n) ↦
      let at : (start : ℕ)
          → member start (s ∷ starts) ≡ true
          → member start (non_destroyed 0 d.balconies) ≡ true =
        λ start h. ground (arith, n, h) in
      let (r, e, k, p, a) =
        step_all-Finds (step fuel) (s ∷ starts) d result
          (λ start r h.
            step-Finds fuel (shoot start d) r (shoot-IsBounded start d (at start h) b)
              (omega (arith, (shoot-budget start d (at start h) b).2, l)))
          (λ start m h q. EndsWith-ge d m b (shot start (at start h) q)) in
      (
        r,
        ground (arith, n, e),
        k,
        elim p [ inl q ↦ inl q | inr (start, h, q) ↦ inr (shot start (at start h) q) ],
        λ m h. a m (EndsWith-Shoots d m s starts n h),
      )
]

-- Some order of shots ends, and none does more damage than the budget.
ends_within :
    (fuel : ℕ) (d : Disposition)
    → IsBounded d
    → alive d.balconies < fuel
    → (m : ℕ) × EndsWith d m × (m ≤ budget d)
ends_within zero d b l = absurd (omega (arith, l))
ends_within (suc fuel) d b l = elim (list_cases (non_destroyed 0 d.balconies)) [
  | inl n ↦ (d.cumulative_damage, over n, omega arith)
  | inr (s, starts, n) ↦
      let h : member s (non_destroyed 0 d.balconies) ≡ true =
        ground (arith, n, at_front s starts) in
      let (g, _, f) = shoot-budget s d h b in
      let (m, e, k) =
        ends_within fuel (shoot s d) (shoot-IsBounded s d h b) (omega (arith, f, l)) in
      (m, shot s h e, omega (arith, k, g))
]

alive-standing : (monsters : List ℕ) → alive (map standing monsters) ≡ length monsters
alive-standing [] = refl
alive-standing (m ∷ monsters) = omega (arith, alive-standing monsters)

abbrev pub total : List ℕ → ℕ
total [] = 0
total (m ∷ monsters) = m + total monsters

monsters_alive-standing :
    (monsters : List ℕ) → monsters_alive (map standing monsters) ≡ total monsters
monsters_alive-standing [] = refl
monsters_alive-standing (m ∷ monsters) = omega (arith, monsters_alive-standing monsters)

abbrev pub start_of : List ℕ → Disposition
start_of monsters = record { cumulative_damage = 0; balconies = map standing monsters }

-- When the number of balconies times the number of monsters is below the largest 64-bit number, the
-- search returns the damage of some order of shots, and no order of shots does less damage.
pub minimal_damage-least :
    (monsters : List ℕ)
    → length monsters * total monsters < uint64_max
    → (r : ℕ) × (minimal_damage monsters ≡ some r)
      × EndsWith (start_of monsters) r
      × ((m : ℕ) → EndsWith (start_of monsters) m → r ≤ m)
unfolding minimal_damage
minimal_damage-least monsters h =
    let d = start_of monsters in
    let b : IsBounded d =
      ground (arith, h, alive-standing monsters, monsters_alive-standing monsters) in
    let l : alive d.balconies < suc (length monsters) = omega (arith, alive-standing monsters) in
    let (r, e, k, p, a) = step-Finds (suc (length monsters)) d uint64_max b l in
    let (m, q, w) = ends_within (suc (length monsters)) d b l in
    (r, e, elim p [ inl z ↦ absurd (omega (arith, z, a m q, w, b)) | inr z ↦ z ], a)
