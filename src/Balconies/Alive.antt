-- ===== src/Balconies/Alive.antt =====
-- The balconies that are not destroyed.
use native.Mathlib.Nat.{mod-eq_of_lt}
use cpp.Prelude.{
  ℕ, zero, suc, ◌+◌, ◌%◌, ◌^◌, ◌≤◌, ◌<◌, ◌≡◌, inl, inr, ap, ◌∙◌, Bool, true, false, Bool-cases,
  ◌||◌, List, [], ◌∷◌, arith, ◌==◌, if◌then◌else◌, length,
}
use cpp.Balconies.{Balcony, non_destroyed, destroy, add_damage, destroy_three}

-- How many there are, and how many monsters are on them.
abbrev pub alive : List Balcony → ℕ
alive [] = 0
alive (b ∷ bs) = (if b.destroyed then 0 else 1) + alive bs

abbrev pub monsters_alive : List Balcony → ℕ
monsters_alive [] = 0
monsters_alive (b ∷ bs) = (if b.destroyed then 0 else b.monsters) + monsters_alive bs

-- Whether the balcony `ix` is there and not destroyed.
unfoldable pub stands : ℕ → List Balcony → Bool
stands ix [] = false
stands zero (b ∷ bs) = if b.destroyed then false else true
stands (suc ix) (b ∷ bs) = stands ix bs

unfoldable pub member : ℕ → List ℕ → Bool
member x [] = false
member x (y ∷ ys) = x == y || member x ys

pub add_damage-sum :
    (damage : ℕ) (bs : List Balcony)
    → damage + monsters_alive bs < 2 ^ 64
    → add_damage damage bs ≡ damage + monsters_alive bs
unfolding add_damage
add_damage-sum damage [] h = omega arith
add_damage-sum damage (b ∷ bs) h = elim (Bool-cases b.destroyed) [
  | inl e ↦ ground (arith, e, h, add_damage-sum damage bs)
  | inr e ↦
      let m : (damage + b.monsters) % 2 ^ 64 ≡ damage + b.monsters = ground (arith, e, h) in
      ground (arith, e, m, h, add_damage-sum (damage + b.monsters) bs)
]

alive-destroy : (ix : ℕ) (bs : List Balcony) → alive (destroy ix bs) ≤ alive bs
unfolding destroy
alive-destroy ix [] = omega arith
alive-destroy zero (b ∷ bs) = ground arith
alive-destroy (suc ix) (b ∷ bs) = ground (arith, alive-destroy ix bs)

monsters_alive-destroy :
    (ix : ℕ) (bs : List Balcony) → monsters_alive (destroy ix bs) ≤ monsters_alive bs
unfolding destroy
monsters_alive-destroy ix [] = omega arith
monsters_alive-destroy zero (b ∷ bs) = ground arith
monsters_alive-destroy (suc ix) (b ∷ bs) = ground (arith, monsters_alive-destroy ix bs)

fewer-destroy :
    (ix : ℕ) (bs : List Balcony) → stands ix bs ≡ true → alive (destroy ix bs) < alive bs
unfolding destroy stands
fewer-destroy ix [] h = cc
fewer-destroy zero (b ∷ bs) h = ground (arith, h)
fewer-destroy (suc ix) (b ∷ bs) h = ground (arith, h, fewer-destroy ix bs h)

stands-lt : (ix : ℕ) (bs : List Balcony) → stands ix bs ≡ true → ix < length bs
unfolding stands
stands-lt ix [] h = cc
stands-lt zero (b ∷ bs) h = omega arith
stands-lt (suc ix) (b ∷ bs) h = omega (arith, stands-lt ix bs h)

member-non_destroyed :
    (ix from : ℕ) (bs : List Balcony)
    → member ix (non_destroyed from bs) ≡ true
    → (k : ℕ) × (ix ≡ from + k) × (stands k bs ≡ true)
unfolding non_destroyed stands member
member-non_destroyed ix from [] h = cc
member-non_destroyed ix from (b ∷ bs) h = elim (Bool-cases b.destroyed) [
  | inl e ↦
      let (k, q, s) = member-non_destroyed ix (from + 1) bs (ground (arith, e, h)) in
      (suc k, omega (arith, q), s)
  | inr e ↦ elim (Bool-cases (ix == from)) [
    | inl q ↦ (zero, ground (arith, q), ground (arith, e))
    | inr q ↦
        let (k, r, s) = member-non_destroyed ix (from + 1) bs (ground (arith, e, h, q)) in
        (suc k, omega (arith, r), s)
  ]
]

pub stands_of :
    (ix : ℕ) (bs : List Balcony) → member ix (non_destroyed 0 bs) ≡ true → stands ix bs ≡ true
stands_of ix bs h =
    let (k, e, s) = member-non_destroyed ix 0 bs h in
    let q : ix ≡ k = omega (arith, e) in ground (arith, q, s)

pub shot_fewer :
    (start : ℕ) (bs : List Balcony)
    → stands start bs ≡ true
    → alive (destroy_three start bs) < alive bs
unfolding destroy_three
shot_fewer start bs h =
    let i : (start + 0) % length bs ≡ start =
      ap (λ k. k % length bs) (omega arith) ∙ mod-eq_of_lt (stands-lt start bs h) in
    let first : alive (destroy ((start + 0) % length bs) bs) < alive bs =
      rw i (fewer-destroy start bs h) in
    omega (
      arith,
      first,
      alive-destroy ((start + 1) % length bs) (destroy ((start + 0) % length bs) bs),
      alive-destroy ((start + 2) % length bs)
          (destroy ((start + 1) % length bs) (destroy ((start + 0) % length bs) bs)),
    )

pub shot_monsters :
    (start : ℕ) (bs : List Balcony) → monsters_alive (destroy_three start bs) ≤ monsters_alive bs
unfolding destroy_three
shot_monsters start bs = omega (
  arith,
  monsters_alive-destroy ((start + 0) % length bs) bs,
  monsters_alive-destroy ((start + 1) % length bs) (destroy ((start + 0) % length bs) bs),
  monsters_alive-destroy ((start + 2) % length bs)
      (destroy ((start + 1) % length bs) (destroy ((start + 0) % length bs) bs)),
)
