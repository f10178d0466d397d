-- ===== src/Prelude/Errors.antt =====
-- The exceptions that the code raises, as values.
use Prim.Native.Nat.{ℕ}

-- `http` carries the status code of an `HTTPException`
pub data Error : Type 0 where
  value_error index_error type_error ssh_error runtime_error : Error
  http : ℕ → Error

pub data Result {ℓ} (A : Type ℓ) : Type ℓ where
  ok : A → Result A
  raise : Error → Result A

infixl 5 ◌>>=◌
abbrev pub ◌>>=◌ {ℓ κ} : {A : Type ℓ} {B : Type κ} → Result A → (A → Result B) → Result B
ok a >>= f = f a
raise e >>= f = raise e
