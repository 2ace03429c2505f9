-- ===== src/ByteOrder/Swaps.antt =====
-- A number is answered with its bytes in the other order.
use cpp.Prelude.{
  inl, inr, ℕ, ◌+◌, ◌*◌, ◌/◌, ◌%◌, ◌^◌, ◌<◌, ◌≡◌, ap, ◌∙◌, Bool, true, false, Bool-cases, not, some,
  List, [], ◌∷◌, arith, ltb,
}
use cpp.Prelude.Result.{ok}
use cpp.ByteOrder.{convert_number_to_base256, convert_base256_to_number, swap}

-- The bytes of a number, given from the lowest one on, as `good` stores them.
ordered : Bool → ℕ → ℕ → ℕ → ℕ → List ℕ
ordered true a b c d = a ∷ b ∷ c ∷ d ∷ []
ordered false a b c d = d ∷ c ∷ b ∷ a ∷ []

convert_bytes :
    (good : Bool) (v : ℕ)
    → v < 2 ^ 32
    → convert_number_to_base256 good v
      ≡ ok (some (ordered good (v % 256) ((v / 256) % 256) ((v / 65536) % 256) (v / 16777216)))
unfolding convert_number_to_base256 ordered
convert_bytes true v h = elim (Bool-cases (ltb (v / 256) 256)) [
  | inl e ↦ ground (arith, e, h)
  | inr e ↦ elim (Bool-cases (ltb (v / 256 / 256) 256)) [
    | inl f ↦ ground (arith, e, f, h)
    | inr f ↦
        let g : ltb (v / 256 / 256 / 256) 256 ≡ true = ground (arith, h) in
        ground (arith, e, f, g, h)
  ]
]
convert_bytes false v h = elim (Bool-cases (ltb (v / 256) 256)) [
  | inl e ↦ ground (arith, e, h)
  | inr e ↦ elim (Bool-cases (ltb (v / 256 / 256) 256)) [
    | inl f ↦ ground (arith, e, f, h)
    | inr f ↦
        let g : ltb (v / 256 / 256 / 256) 256 ≡ true = ground (arith, h) in
        ground (arith, e, f, g, h)
  ]
]

convert_back :
    (good : Bool) (a b c d : ℕ)
    → a < 256
    → b < 256
    → c < 256
    → d < 256
    → convert_base256_to_number good (ordered good a b c d)
      ≡ ok (a * 16777216 + b * 65536 + c * 256 + d)
unfolding convert_base256_to_number ordered
convert_back true a b c d h i j k = ground (arith, h, i, j, k)
convert_back false a b c d h i j k = ground (arith, h, i, j, k)

-- The number with the bytes in the other order.
unfoldable pub reversed : ℕ → ℕ
reversed v =
    (v % 256) * 16777216 + ((v / 256) % 256) * 65536 + ((v / 65536) % 256) * 256 + v / 16777216

swap-reversed : (good : Bool) (v : ℕ) → v < 2 ^ 32 → swap good v ≡ ok (some (reversed v))
unfolding swap reversed
swap-reversed good v h = ground (
  arith,
  convert_bytes (not good) v h,
  convert_back (not good) (v % 256) ((v / 256) % 256) ((v / 65536) % 256) (v / 16777216)
      (omega arith) (omega arith) (omega arith) (omega (arith, h)),
)

reversed-bounds : (v : ℕ) → v < 2 ^ 32 → reversed v < 2 ^ 32
unfolding reversed
reversed-bounds v h = omega (arith, h)

reversed-reversed : (v : ℕ) → v < 2 ^ 32 → reversed (reversed v) ≡ v
unfolding reversed
reversed-reversed v h = omega (arith, h)

-- For both kinds, a number of 32 bits is answered with its four bytes in the other order, and that
-- number, for either kind, with the first one again.
pub swap-swap :
    (good good' : Bool) (v : ℕ)
    → v < 2 ^ 32
    → (swap good v ≡ ok (some (reversed v))) × (swap good' (reversed v) ≡ ok (some v))
swap-swap good good' v h =
    let b = reversed-bounds v h in
    (
      swap-reversed good v h,
      swap-reversed good' (reversed v) b ∙ ap (λ x. ok (some x)) (reversed-reversed v h),
    )
