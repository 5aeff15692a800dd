-- ===== src/Prelude/Results.antt =====
-- Go's pairs of a value and an error, with the sequencing of calls that return one.
use mathlib.Core.Bool.{Bool, false, true}
use mathlib.Core.List.{List}
use mathlib.Core.Path.{refl, ◌≡◌}
use mathlib.Core.Logic.{◌⊎◌, inl, inr}
use Prim.Native.Nat.{ℕ}

-- `err` carries the message of a non-nil error.
pub data Result {κ} (T : Type κ) : Type κ where
  ok : T → Result T
  err : (message : List ℕ) → Result T

-- err == nil
abbrev pub is_ok {κ} : {T : Type κ} → Result T → Bool
is_ok (err _) = false
is_ok (ok _) = true

infixl 5 ◌>>=◌
abbrev pub ◌>>=◌ {κ κ'} : {T : Type κ} {U : Type κ'} → Result T → (T → Result U) → Result U
err message >>= next = err message
ok value >>= next = next value

module _ {κ κ'} {T : Type κ} {U : Type κ'} where
  -- A chain succeeds when its first call does and what follows succeeds on its value.
  pub >>=-eq-ok :
      (first : Result T) (next : T → Result U) {u : U}
      → (first >>= next) ≡ ok u
      → (value : T) × (first ≡ ok value) × (next value ≡ ok u)
  >>=-eq-ok (err message) next failed = cc
  >>=-eq-ok (ok value) next success = (value, refl, success)

pub Result-cases {κ} :
    {T : Type κ} (result : Result T)
    → ((message : List ℕ) × (result ≡ err message)) ⊎ ((value : T) × (result ≡ ok value))
Result-cases (err message) = inl (message, refl)
Result-cases (ok value) = inr (value, refl)
