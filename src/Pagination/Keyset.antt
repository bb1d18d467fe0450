-- ===== src/Pagination/Keyset.antt =====
-- src/common/pagination/keyset.ts. `parse` reads the payload of a cursor, `new_date` is `new Date`
-- of a string or a number.
use nivara_api_nestjs.Errors.{invalid_cursor, fail, ok, throw, ◌>>=◌, Result}
use nivara_api_nestjs.Pagination.Cursor.{
  CursorPosition, assert_cursor_matches_sort, decode_cursor, SortValue,
}
use nivara_api_nestjs.Shared.{some, [], none, str_eq, Option, if◌then◌else◌, ◌∷◌, List, String, ℕ}
use mathlib.Core.List.{[]}
use nivara_api_nestjs.Value.{Value}
use Prim.Native.String.{◌∷◌, String}
use Prim.Native.Nat.{ℕ}
use nivara_api_nestjs.Pagination.Sorting.{Direction, Sort}

pub data SortableFieldKind : Type 0 where
  date_kind scalar_kind : SortableFieldKind

-- An object's entries, in order.
abbrev pub SortableFields : Type 0
SortableFields = List (String × SortableFieldKind)

unfoldable pub sortable_field_names : SortableFields → List String
sortable_field_names [] = []
sortable_field_names (f ∷ fs) = f.0 ∷ sortable_field_names fs

unfoldable pub kind_of : SortableFields → String → Option SortableFieldKind
kind_of [] field = none
kind_of (f ∷ fs) field = let rest = kind_of fs field in if str_eq f.0 field then some f.1 else rest

-- A column: a date in milliseconds, or a string or number.
pub data Column : Type 0 where
  date_column : ℕ → Column
  scalar_column : SortValue → Column

-- `seek_id` is `{ id: { op: anchorId } }`; `seek_field` is the disjunction of `{ field: { op:
-- value } }` and `{ field: value, id: { op: anchorId } }`; `op` is `lt` for a descending sort.
pub data Where : Type 0 where
  seek_id : Direction → String → Where
  seek_field : String → Direction → Column → String → Where

pub record KeysetPlan : Type 0 where
  pub order_by : List (String × Direction)
  pub condition : Option Where

unfoldable pub order_by_for : Sort → List (String × Direction)
order_by_for sort =
    if str_eq sort.field "id"
    then ("id", sort.direction) ∷ []
    else (sort.field, sort.direction) ∷ ("id", sort.direction) ∷ []

unfoldable pub decode_value : (SortValue → ℕ) → SortValue → SortableFieldKind → Column
decode_value new_date value date_kind = date_column (new_date value)
decode_value new_date value scalar_kind = scalar_column value

unfoldable pub seek_past : Sort → Column → String → Where
seek_past sort value anchor_id =
    if str_eq sort.field "id"
    then seek_id sort.direction anchor_id
    else seek_field sort.field sort.direction value anchor_id

module _ (parse : String → Option Value) (new_date : SortValue → ℕ) where
  unfoldable pub plan_for : Sort → CursorPosition → Option SortableFieldKind → Result KeysetPlan
  unfolding order_by_for decode_value seek_past
  plan_for sort position none = throw (fail invalid_cursor)
  plan_for sort position (some kind) = ok (record {
    order_by = order_by_for sort;
    condition = some (seek_past sort (decode_value new_date position.value kind) position.id);
  })

  unfoldable pub plan_at : Sort → SortableFields → CursorPosition → Result KeysetPlan
  unfolding plan_for kind_of assert_cursor_matches_sort
  plan_at sort fields position = assert_cursor_matches_sort position sort >>= λ matched.
      plan_for sort position (kind_of fields position.sort.field)

  unfoldable pub keyset_plan : Sort → Option String → SortableFields → Result KeysetPlan
  unfolding plan_at order_by_for decode_cursor
  keyset_plan sort none fields = ok (record { order_by = order_by_for sort; condition = none })
  keyset_plan sort (some cursor) fields = decode_cursor parse cursor >>= plan_at sort fields
