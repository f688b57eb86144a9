-- ===== src/Base/Errors.antt =====
-- src/include/preludedb-error.h: the error codes, and results that may be one of them.
use Prim.Native.Nat.{ℕ}
use mathlib.Core.Path.{◌≡◌, refl}
use mathlib.Core.Logic.{◌⊎◌, inl, inr}

-- A negative return value. `foreign` is an error of another source (errno, libprelude), and
-- `failure` the bare -1.
pub data Error : Type 0 where
  generic invalid_settings_string connection query invalid_column_num invalid_column_name : Error
  invalid_value invalid_value_type unknown_sql_plugin unknown_format_plugin : Error
  already_in_transaction not_in_transaction invalid_message_ident : Error
  invalid_selected_object_string invalid_object_selection : Error
  schema_version_too_old schema_version_too_recent schema_version_invalid : Error
  cannot_load_sql_plugin cannot_load_format_plugin index : Error
  foreign : ℕ → Error
  failure : Error
  -- a read through a null pointer, at which the model stops
  fault : Error

-- What a function returns: a negative code, or what it hands its caller.
pub data Result {ℓ} (Value : Type ℓ) : Type ℓ where
  err : Error → Result Value
  ok : Value → Result Value

-- To split on a computed result and keep the equation.
pub Result-cases {ℓ} :
    {Value : Type ℓ} (r : Result Value)
    → ((v : Value) × (r ≡ ok v)) ⊎ ((code : Error) × (r ≡ err code))
Result-cases (err code) = inr (code, refl)
Result-cases (ok v) = inl (v, refl)

-- `if ( ret < 0 ) return ret;`
abbrev pub ◌>>=◌ {ℓ κ} :
    {Value : Type ℓ} {Next : Type κ} → Result Value → (Value → Result Next) → Result Next
err code >>= next = err code
ok v >>= next = next v

infixl 5 ◌>>=◌
-- A chain that succeeds, taken apart.
pub >>=-eq-ok {ℓ κ} :
    {Value : Type ℓ} {Next : Type κ} (first : Result Value) (next : Value → Result Next) {w : Next}
    → (first >>= next) ≡ ok w
    → (v : Value) × (first ≡ ok v) × (next v ≡ ok w)
>>=-eq-ok (err code) next chain = cc
>>=-eq-ok (ok v) next chain = (v, refl, chain)
