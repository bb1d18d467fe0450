-- ===== src/Value.antt =====
-- The values of JSON and of JavaScript that the code inspects by `typeof`: a body that a client
-- sent, or the payload of a cursor. A number is a natural number, a negative integer -(n + 1), or
-- one that is no safe integer (a fraction, NaN, an infinity, or beyond 2 ^ 53 - 1).
use nivara_api_nestjs.Shared.{str_eq, if◌then◌else◌, Bool, String, ℕ}
use Prim.Native.Nat.{ℕ}
use Prim.Native.String.{String}

mutual
  pub data Value : Type 0 where
    undefined null : Value
    boolean : Bool → Value
    text : String → Value
    whole : ℕ → Value
    below : ℕ → Value
    inexact : ℕ → Value
    array : Value
    object : Fields → Value

  pub data Fields : Type 0 where
    end : Fields
    field : String → Value → Fields → Fields

-- `record[name]`
unfoldable pub get_field : String → Fields → Value
get_field name end = undefined
get_field name (field k v rest) = if str_eq k name then v else get_field name rest

abbrev pub max_safe_integer : ℕ
max_safe_integer = 9007199254740991
