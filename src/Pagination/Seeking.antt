-- ===== src/Pagination/Seeking.antt =====
-- The clause of src/common/pagination/keyset.ts against the order of its `orderBy`, and the value of
-- a row that goes through a cursor.
use nivara_api_nestjs.Pagination.Cursor.{
  payload_of, CursorPosition, assert_cursor_matches_sort, string_value, SortValue,
}
use nivara_api_nestjs.Shared.{
  true, eq_iff, ap, refl, arith, inr, inl, str_eq, Bool-cases, some, ◌≡◌, Bool, ℕ, Option, String,
}
use nivara_api_nestjs.Pagination.Page.{sort_value_in_column}
use nivara_api_nestjs.Pagination.Walk.{comes_after, holds}
use nivara_api_nestjs.Pagination.Keyset.{
  decode_value, kind_of, SortableFields, order_by_for, scalar_column, scalar_kind, date_column,
  seek_past, date_kind, Column, SortableFieldKind,
}
use nivara_api_nestjs.Pagination.Sorting.{desc, asc, Direction, same_direction, Sort}
use nivara_api_nestjs.Errors.{ok}
use nivara_api_nestjs.Value.{Value}
use Prim.Native.String.{String}

-- A column that its declared kind sends through a cursor and back.
pub data Matches (iso : ℕ → String) (new_date : SortValue → ℕ)
    : SortableFieldKind → Column → Type 0 where
  is_date :
      {d : ℕ} → new_date (string_value (iso d)) ≡ d → Matches iso new_date date_kind (date_column d)
  is_scalar : {v : SortValue} → Matches iso new_date scalar_kind (scalar_column v)

-- The value that a column has in a cursor.
abbrev pub cursor_value : (ℕ → String) → Column → SortValue
cursor_value iso (date_column d) = string_value (iso d)
cursor_value iso (scalar_column v) = v

-- The position that a row's cursor has.
abbrev pub position_at : (ℕ → String) → Sort → Column → String → CursorPosition
position_at iso sort column id = record { sort = sort; value = cursor_value iso column; id = id }

-- What the code relies on: JSON and base64url read the cursors that they write, `new Date` reads what
-- `toISOString` writes, and the sort field is declared and present on every row.
pub record Listed {R : Type 0} (id_of : R → String) (column_of : String → R → Option Column)
    (iso : ℕ → String) (new_date : SortValue → ℕ) (print : Value → String)
    (parse : String → Option Value) (sort : Sort) (fields : SortableFields) : Type 0 where
  pub kind : SortableFieldKind
  pub is_declared : kind_of fields sort.field ≡ some kind
  pub column : R → Column
  pub is_column : (r : R) → column_of sort.field r ≡ some (column r)
  pub matches : (r : R) → Matches iso new_date kind (column r)
  pub inverse :
      (r : R)
      → parse (print (payload_of (position_at iso sort (column r) (id_of r))))
        ≡ some (payload_of (position_at iso sort (column r) (id_of r)))

pub carried :
    (iso : ℕ → String) (c : Column) → sort_value_in_column iso (some c) ≡ ok (cursor_value iso c)
unfolding sort_value_in_column
carried iso (date_column d) = refl
carried iso (scalar_column v) = refl

pub returned :
    (iso : ℕ → String) (new_date : SortValue → ℕ) {kind : SortableFieldKind} {c : Column}
    → Matches iso new_date kind c
    → decode_value new_date (cursor_value iso c) kind ≡ c
unfolding decode_value
returned iso new_date (is_date same) = ap date_column same
returned iso new_date is_scalar = refl

same_direction_refl : (d : Direction) → same_direction d d ≡ true
unfolding same_direction
same_direction_refl asc = refl
same_direction_refl desc = refl

pub assert_cursor_matches_sort-own :
    (position : CursorPosition) → assert_cursor_matches_sort position position.sort ≡ ok tt
unfolding assert_cursor_matches_sort
assert_cursor_matches_sort-own position =
    rw
      (
        (eq_iff position.sort.field position.sort.field).1 refl,
        same_direction_refl position.sort.direction,
      )
      refl

module _ {R : Type 0} (id_of : R → String) (column_of : String → R → Option Column)
    (less same : Column → Column → Bool) (id_less : String → String → Bool) where
  -- The clause that seeks past a row admits the rows that `orderBy` puts after it.
  pub seek_past-comes_after :
      (sort : Sort) (value : Column) (a r : R)
      → column_of sort.field a ≡ some value
      → holds id_of column_of less same id_less (seek_past sort value (id_of a)) r
        ≡ comes_after id_of column_of less same id_less (order_by_for sort) a r
  unfolding holds seek_past comes_after order_by_for
  seek_past-comes_after sort value a r e = elim (Bool-cases (str_eq sort.field "id")) [
    | inl id ↦ rw id ground arith
    | inr other ↦ rw (other, e) ground arith
  ]
