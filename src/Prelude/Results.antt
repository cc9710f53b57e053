-- ===== src/Prelude/Results.antt =====
-- A call that may throw: its value, or the error.
use mathlib.Core.Path.{◌≡◌, refl}

pub data Result {κ} (Error Value : Type κ) : Type κ where
  err : Error → Result Error Value
  ok : Value → Result Error Value

infixl 5 ◌>>=◌
abbrev pub ◌>>=◌ {κ} :
    {Error Value Next : Type κ}
    → Result Error Value
    → (Value → Result Error Next)
    → Result Error Next
err error >>= next = err error
ok value >>= next = next value

-- A successful chain has succeeded at each step.
pub >>=-eq-ok {κ} :
    {Error Value Next : Type κ} (first : Result Error Value) (next : Value → Result Error Next)
    {last : Next}
    → (first >>= next) ≡ ok last
    → (value : Value) × (first ≡ ok value) × (next value ≡ ok last)
>>=-eq-ok (err error) next finished = cc
>>=-eq-ok (ok value) next finished = (value, refl, finished)

pub ok-injective {κ} :
    {Error Value : Type κ} (a b : Value) → ◌≡◌ {A = Result Error Value} (ok a) (ok b) → a ≡ b
ok-injective a b h = cc
