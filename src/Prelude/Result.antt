-- ===== src/Prelude/Result.antt =====
-- A call that returns or throws. Only the exception's type is kept, not its text.

use mathlib.Core.Logic.{◌⊎◌, inl, inr}
use mathlib.Core.Path.{◌≡◌, refl}

pub data Exception : Type 0 where
  invalid_argument runtime_error out_of_range assertion_failed undefined_behaviour : Exception
  thrown_string length_error : Exception

pub data Result {ℓ} (A : Type ℓ) : Type ℓ where
  ok : A → Result A
  throw : Exception → Result A

-- What throws stops the rest; `abbrev` lets a chain of calls compute wherever it stands.
infixl 5 ◌>>=◌
abbrev pub ◌>>=◌ {κ ℓ} : {B : Type κ} {A : Type ℓ} (m : Result B) → (B → Result A) → Result A
throw x >>= next = throw x
ok v >>= next = next v

-- A call whose result is not used.
infixl 5 ◌>>◌
abbrev pub ◌>>◌ {κ} : {B : Type κ} → Result (Unit {0}) → Result B → Result B
first >> second = first >>= λ _. second

-- A chain returns only when its first call returns a value and the rest returns on that value.
pub >>=-eq-ok {κ ℓ} :
    {B : Type κ} {A : Type ℓ} (call : Result B) (next : B → Result A) {last : A}
    (h : (call >>= next) ≡ ok last)
    → (v : B) × (call ≡ ok v) × (next v ≡ ok last)
>>=-eq-ok (throw x) next h = cc
>>=-eq-ok (ok v) next h = (v, refl, h)

pub Result-cases {ℓ} :
    {A : Type ℓ} (m : Result A) → ((a : A) × (m ≡ ok a)) ⊎ ((e : Exception) × (m ≡ throw e))
Result-cases (ok a) = inl (a, refl)
Result-cases (throw e) = inr (e, refl)
