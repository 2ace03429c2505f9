-- ===== src/Examples/Balconies.antt =====
-- Four balconies.
use cpp.Prelude.{ℕ, ◌≤◌, ◌≡◌, refl, some, List, [], ◌∷◌, arith}
use cpp.Balconies.{
  minimal_damage, step, step_all, non_destroyed, shoot, destroy_three, destroy, add_damage,
}
use cpp.Balconies.Optimal.{EndsWith, start_of, minimal_damage-least}

abbrev four : List ℕ
four = 3 ∷ 4 ∷ 2 ∷ 2 ∷ []

minimal_damage-least_example :
    (r : ℕ) × (minimal_damage four ≡ some r)
    × EndsWith (start_of four) r
    × ((m : ℕ) → EndsWith (start_of four) m → r ≤ m)
minimal_damage-least_example = minimal_damage-least four (omega arith)

-- The first shot leaves two monsters.
minimal_damage-four : minimal_damage four ≡ some 2
unfolding minimal_damage step step_all non_destroyed shoot destroy_three destroy add_damage
minimal_damage-four = refl
