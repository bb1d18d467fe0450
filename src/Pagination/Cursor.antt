-- ===== src/Pagination/Cursor.antt =====
-- src/common/pagination/cursor.ts. `print` is JSON.stringify and base64url, `parse` is base64url
-- and JSON.parse, `none` where the latter throws.
use nivara_api_nestjs.Shared.{
  refl, ◌||◌, false, not, str_eq, if◌then◌else◌, none, some, ◌==◌, ◌≡◌, Option, Bool, String, ℕ,
}
use nivara_api_nestjs.Errors.{invalid_cursor, fail, ok, throw, Result}
use nivara_api_nestjs.Value.{end, inexact, below, field, object, text, whole, Value, get_field}
use nivara_api_nestjs.Pagination.Sorting.{desc, asc, Direction, Sort, same_direction}
use Prim.Native.Nat.{ℕ}
use Prim.Native.String.{String}

abbrev pub cursor_version : ℕ
cursor_version = 1

-- A string or a number, as `Value` splits the numbers.
pub data SortValue : Type 0 where
  string_value : String → SortValue
  whole_value below_value inexact_value : ℕ → SortValue

pub record CursorPosition : Type 0 where
  pub sort : Sort
  pub value : SortValue
  pub id : String

direction_text : Direction → String
direction_text asc = "asc"
direction_text desc = "desc"

value_of : SortValue → Value
value_of (string_value s) = text s
value_of (whole_value n) = whole n
value_of (below_value n) = below n
value_of (inexact_value n) = inexact n

unfoldable pub payload_of : CursorPosition → Value
unfolding direction_text value_of
payload_of p = object (
    field "v" (whole cursor_version) (
      field "f" (text p.sort.field) (
        field "d" (text (direction_text p.sort.direction))
          (field "k" (value_of p.value) (field "i" (text p.id) end)))))

unfoldable pub encode_cursor : (Value → String) → CursorPosition → String
unfolding payload_of
encode_cursor print position = print (payload_of position)

-- What `isCursorPayload` accepts of each field, and the version.
version_in : Value → Bool
version_in (whole n) = n == cursor_version
version_in _ = false

text_in : Value → Option String
text_in (text s) = some s
text_in _ = none

direction_named : String → Option Direction
direction_named s = if str_eq s "asc" then some asc else if str_eq s "desc" then some desc else none

direction_in : Value → Option Direction
unfolding direction_named
direction_in (text s) = direction_named s
direction_in _ = none

sort_value_in : Value → Option SortValue
sort_value_in (text s) = some (string_value s)
sort_value_in (whole n) = some (whole_value n)
sort_value_in (below n) = some (below_value n)
sort_value_in (inexact n) = some (inexact_value n)
sort_value_in _ = none

position_in :
    Bool
    → Option String
    → Option Direction
    → Option SortValue
    → Option String
    → Result CursorPosition
position_in Bool.true (some f) (some d) (some k) (some i) =
    ok (record { sort = record { field = f; direction = d }; value = k; id = i })
position_in _ _ _ _ _ = throw (fail invalid_cursor)

payload_in : Option Value → Result CursorPosition
unfolding position_in version_in text_in direction_in sort_value_in get_field
payload_in (some (object fields)) =
    position_in (version_in (get_field "v" fields)) (text_in (get_field "f" fields))
      (direction_in (get_field "d" fields)) (sort_value_in (get_field "k" fields))
      (text_in (get_field "i" fields))
payload_in _ = throw (fail invalid_cursor)

unfoldable pub decode_cursor : (String → Option Value) → String → Result CursorPosition
unfolding payload_in
decode_cursor parse cursor = payload_in (parse cursor)

unfoldable pub assert_cursor_matches_sort : CursorPosition → Sort → Result {0} Unit
unfolding same_direction
assert_cursor_matches_sort position sort =
    if not (str_eq position.sort.field sort.field)
      || not (same_direction position.sort.direction sort.direction)
    then throw (fail invalid_cursor)
    else ok tt

direction_named-text : (d : Direction) → direction_named (direction_text d) ≡ some d
unfolding direction_named direction_text
direction_named-text asc = refl
direction_named-text desc = refl

sort_value_in-value_of : (v : SortValue) → sort_value_in (value_of v) ≡ some v
unfolding sort_value_in value_of
sort_value_in-value_of (string_value s) = refl
sort_value_in-value_of (whole_value n) = refl
sort_value_in-value_of (below_value n) = refl
sort_value_in-value_of (inexact_value n) = refl

-- A cursor is decoded as the position that it was encoded of, if base64url and JSON read back its
-- payload.
pub decode_cursor-encode_cursor :
    (print : Value → String) (parse : String → Option Value) (position : CursorPosition)
    → parse (print (payload_of position)) ≡ some (payload_of position)
    → decode_cursor parse (encode_cursor print position) ≡ ok position
unfolding decode_cursor encode_cursor payload_in payload_of position_in version_in text_in
    direction_in sort_value_in get_field direction_text value_of direction_named
decode_cursor-encode_cursor print parse position inverse =
    rw
      (inverse, direction_named-text position.sort.direction, sort_value_in-value_of position.value)
      refl
