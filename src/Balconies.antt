-- ===== src/Balconies.antt =====
-- The monsters on the balconies: timus/1152/main.cpp. The search with its bound, over all orders of
-- the shots. A shot is a choice of a balcony that is not destroyed.
pub mod Alive
pub mod Optimal
use cpp.Prelude.{
  ℕ, zero, suc, ◌+◌, ◌-◌, ◌%◌, ◌^◌, Bool, true, false, Option, none, some, List, [], ◌∷◌, ltb,
  if◌then◌else◌, length, map, min,
}

-- `TBalcony`
pub record Balcony : Type 0 where
  pub monsters : ℕ
  pub destroyed : Bool

-- `TDisposition`
pub record Disposition : Type 0 where
  pub cumulative_damage : ℕ
  pub balconies : List Balcony

-- `UINT64_MAX`, the damage of a result that has no value yet.
abbrev pub uint64_max : ℕ
uint64_max = 2 ^ 64 - 1

-- `TResult::MaybeUpdate`
abbrev pub maybe_update : ℕ → ℕ → ℕ
maybe_update damage result = min result damage

-- `TResult::PossibleImrovement`
abbrev pub possible_improvement : ℕ → ℕ → Bool
possible_improvement damage result = ltb damage result

-- `GetNonDestroyedBalconyIxs`, from the index `ix` on.
unfoldable pub non_destroyed : ℕ → List Balcony → List ℕ
non_destroyed ix [] = []
non_destroyed ix (b ∷ balconies) =
    let rest = non_destroyed (ix + 1) balconies in if b.destroyed then rest else ix ∷ rest

-- `Balconies[ix].Destroyed = true`
unfoldable pub destroy : ℕ → List Balcony → List Balcony
destroy ix [] = []
destroy zero (b ∷ balconies) = record b { destroyed = true } ∷ balconies
destroy (suc ix) (b ∷ balconies) = b ∷ destroy ix balconies

-- The second loop of `Shoot`.
unfoldable pub add_damage : ℕ → List Balcony → ℕ
add_damage damage [] = damage
add_damage damage (b ∷ balconies) =
    add_damage (if b.destroyed then damage else (damage + b.monsters) % 2 ^ 64) balconies

-- The first loop of `Shoot`.
unfoldable pub destroy_three : ℕ → List Balcony → List Balcony
unfolding destroy
destroy_three start balconies =
    destroy ((start + 2) % length balconies) (
      destroy ((start + 1) % length balconies) (destroy ((start + 0) % length balconies) balconies))

-- `Shoot`
unfoldable pub shoot : ℕ → Disposition → Disposition
unfolding destroy_three add_damage
shoot start d = record {
  cumulative_damage = add_damage d.cumulative_damage (destroy_three start d.balconies);
  balconies = destroy_three start d.balconies;
}

-- The loop of `Step` over the starting points, with what `Step` does to the result.
unfoldable pub step_all : (Disposition → ℕ → Option ℕ) → List ℕ → Disposition → ℕ → Option ℕ
unfolding shoot
step_all step [] d result = some result
step_all step (start ∷ starts) d result =
    elim (if possible_improvement d.cumulative_damage result
      then step (shoot start d) result
      else some result) [ none ↦ none | some result' ↦ step_all step starts d result' ]

-- `Step`, on fuel, with `none` where it runs out. The result is the one that the call leaves.
unfoldable pub step : ℕ → Disposition → ℕ → Option ℕ
unfolding non_destroyed step_all
step zero d result = none
step (suc fuel) d result = elim (non_destroyed 0 d.balconies) [
  | [] ↦ some (maybe_update d.cumulative_damage result)
  | start ∷ starts ↦ step_all (step fuel) (start ∷ starts) d result
]

abbrev pub standing : ℕ → Balcony
standing monsters = record { monsters = monsters; destroyed = false }

-- `main`, on the numbers of monsters.
unfoldable pub minimal_damage : List ℕ → Option ℕ
unfolding step
minimal_damage monsters =
    step (suc (length monsters))
      (record { cumulative_damage = 0; balconies = map standing monsters }) uint64_max
