-- ===== src/Tests/Lists.antt =====
-- Runs of the pages of src/common/pagination: three rows, one to a page, the newest first.
use nivara_api_nestjs.Shared.{
  arith, List, refl, [], false, none, ◌||◌, ltb, some, ◌&&◌, ◌==◌, ◌≡◌, if◌then◌else◌, str_eq, ◌∷◌,
  Bool, Option, decimal, String, ℕ,
}
use nivara_api_nestjs.Pagination.Traversal.{walk_complete}
use nivara_api_nestjs.Pagination.Walk.{walk, comes_after}
use nivara_api_nestjs.Pagination.Cursor.{
  string_value, SortValue, decode_cursor-encode_cursor, encode_cursor, decode_cursor,
  CursorPosition, payload_of,
}
use nivara_api_nestjs.Pagination.Keyset.{
  order_by_for, kind_of, scalar_kind, date_column, date_kind, Column, SortableFields,
}
use nivara_api_nestjs.Pagination.Seeking.{Listed, is_date, Matches, position_at}
use Prim.Native.String.{[], String}
use nivara_api_nestjs.Errors.{ok}
use nivara_api_nestjs.Pagination.Sorting.{default_sort}
use nivara_api_nestjs.Value.{get_field, object, text, Value}
use Prim.Native.Nat.{ℕ}

pub data Row : Type 0 where
  first_row second_row third_row : Row

abbrev id_of : Row → String
id_of first_row = "r-1"
id_of second_row = "r-2"
id_of third_row = "r-3"

-- The last two rows are of the same instant.
abbrev created : Row → ℕ
created first_row = 2000
created second_row = 1000
created third_row = 1000

abbrev column_of : String → Row → Option Column
column_of f r = if str_eq f "createdAt" then some (date_column (created r)) else none

abbrev dates_less : Column → Column → Bool
dates_less (date_column a) (date_column b) = ltb a b
dates_less _ _ = false

abbrev dates_same : Column → Column → Bool
dates_same (date_column a) (date_column b) = a == b
dates_same _ _ = false

abbrev id_less : String → String → Bool
id_less a b =
    str_eq a "r-2" && str_eq b "r-3"
    || str_eq a "r-3" && str_eq b "r-1"
    || str_eq a "r-2" && str_eq b "r-1"

-- Stand-ins for `toISOString` and `new Date`.
abbrev iso : ℕ → String
iso n = decimal n

abbrev text_of : Value → String
text_of (text s) = s
text_of _ = ""

abbrev print : Value → String
print (object fields) = text_of (get_field "i" fields)
print _ = ""

abbrev position_of : Row → CursorPosition
position_of r = position_at iso default_sort (date_column (created r)) (id_of r)

abbrev parse : String → Option Value
parse s =
    if str_eq s "r-1"
    then some (payload_of (position_of first_row))
    else if str_eq s "r-2"
    then some (payload_of (position_of second_row))
    else if str_eq s "r-3"
    then some (payload_of (position_of third_row))
    else none

abbrev declared : SortableFields
declared = ("createdAt", date_kind) ∷ ("priority", scalar_kind) ∷ []

decode_cursor-encode_cursor_example :
    decode_cursor parse (encode_cursor print (position_of second_row)) ≡ ok (position_of second_row)
unfolding payload_of get_field
decode_cursor-encode_cursor_example =
    decode_cursor-encode_cursor print parse (position_of second_row) refl

abbrev new_date : SortValue → ℕ
new_date (string_value s) = if str_eq s (decimal 2000) then 2000 else 1000
new_date _ = 0

created-Matches : (r : Row) → Matches iso new_date date_kind (date_column (created r))
unfolding decimal
created-Matches first_row = is_date {d = 2000} refl
created-Matches second_row = is_date {d = 1000} refl
created-Matches third_row = is_date {d = 1000} refl

parse-print :
    (r : Row) → parse (print (payload_of (position_of r))) ≡ some (payload_of (position_of r))
unfolding payload_of get_field
parse-print first_row = refl
parse-print second_row = refl
parse-print third_row = refl

rows-Listed : Listed id_of column_of iso new_date print parse default_sort declared
unfolding kind_of
rows-Listed = record {
  kind = date_kind;
  is_declared = refl;
  column = λ r. date_column (created r);
  is_column = λ r. refl;
  matches = created-Matches;
  inverse = parse-print;
}

abbrev rows : List Row
rows = first_row ∷ third_row ∷ second_row ∷ []

walk_complete_example :
    walk id_of column_of dates_less dates_same id_less iso new_date print parse default_sort
      declared 1 rows 4 none
    ≡ ok rows
unfolding comes_after order_by_for
walk_complete_example =
    walk_complete id_of column_of dates_less dates_same id_less iso new_date print parse
      default_sort declared rows-Listed 0 rows 4
      (refl, ((refl, refl), ((refl, refl), tt)), (refl, ((refl, refl), tt), (refl, tt, tt)))
      (omega arith)
