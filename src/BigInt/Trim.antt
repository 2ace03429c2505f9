-- ===== src/BigInt/Trim.antt =====
-- Digits without the zeros at their end.
use cpp.Prelude.{ℕ, ◌<◌, [], ◌∷◌, arith, ◌==◌, if◌then◌else◌, length}
use cpp.BigInt.{BigInt, pop_zeros, trim}
use cpp.BigInt.Digits.{AllDigits, EndsNonzero, IsNumber}

-- Nothing is left of the digits, or their last one is not zero.
abbrev Popped : BigInt → Type 0
Popped [] = Unit
Popped (d ∷ a) = AllDigits (d ∷ a) × EndsNonzero (d ∷ a)

Popped-cons :
    (d : ℕ) (p : BigInt)
    → d < 10
    → Popped p
    → Popped (elim p [ [] ↦ if d == 0 then [] else d ∷ [] | e ∷ rest ↦ d ∷ e ∷ rest ])
Popped-cons d [] g h = ground (arith, g)
Popped-cons d (e ∷ p) g h = ((g, h.0), h.1)

pop_zeros-Popped : (a : BigInt) → AllDigits a → Popped (pop_zeros a)
unfolding pop_zeros
pop_zeros-Popped [] h = tt
pop_zeros-Popped (d ∷ a) h = Popped-cons d (pop_zeros a) h.0 (pop_zeros-Popped a h.1)

IsNumber-cons : (d : ℕ) (p : BigInt) → d < 10 → Popped p → IsNumber (d ∷ p)
IsNumber-cons d [] g h = g
IsNumber-cons d (e ∷ p) g h = ((g, h.0), h.1)

pub trim-IsNumber : (a : BigInt) → AllDigits a → 0 < length a → IsNumber (trim a)
unfolding trim
trim-IsNumber [] g h = h
trim-IsNumber (d ∷ a) g h = IsNumber-cons d (pop_zeros a) g.0 (pop_zeros-Popped a g.1)
