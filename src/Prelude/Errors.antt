-- ===== src/Prelude/Errors.antt =====
-- Python exceptions as values: errors.py, and the built-in and third-party exceptions that the
-- code raises or lets through.
use mathlib.Core.Path.{◌≡◌, refl}

-- `sqlite_integrity` is sqlite3.IntegrityError (a violated constraint), `zlib_error` zlib.error.
pub data Error : Type 0 where
  invalid_transition node_not_found artifact_not_found schema_error : Error
  integrity_error corrupt_chunk sqlite_integrity zlib_error : Error
  value_error type_error sqlite_programming sqlite_operational runtime_error : Error

-- What a call comes back with: a value, or the exception that it raised.
pub data Result {ℓ} (Value : Type ℓ) : Type ℓ where
  ok : Value → Result Value
  err : Error → Result Value

infixl 5 ◌>>=◌
infixl 5 ◌>>◌
-- The rest of a function behind a call that may raise.
abbrev pub ◌>>=◌ {ℓ κ} :
    {Value : Type ℓ} {Answer : Type κ} → Result Value → (Value → Result Answer) → Result Answer
◌>>=◌ (err raised) rest = err raised
◌>>=◌ (ok value) rest = rest value

-- A function that returns has got past its first call.
pub >>=-eq-ok {ℓ κ} :
    {Value : Type ℓ} {Answer : Type κ} (call : Result Value) (rest : Value → Result Answer)
    {answer : Answer}
    → (call >>= rest) ≡ ok answer
    → (value : Value) × (call ≡ ok value) × (rest value ≡ ok answer)
>>=-eq-ok (err raised) rest returned = cc
>>=-eq-ok (ok value) rest returned = (value, refl, returned)

abbrev pub ◌>>◌ {κ} : {Answer : Type κ} → Result (Unit {0}) → Result Answer → Result Answer
◌>>◌ (err raised) rest = err raised
◌>>◌ (ok done) rest = rest
