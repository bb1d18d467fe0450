-- ===== src/Pagination/Page.antt =====
-- src/common/pagination/page.ts. A row is given by its id and its columns, `iso` is `toISOString`,
-- and `print` writes the payload of a cursor.
use nivara_api_nestjs.Pagination.Keyset.{scalar_column, date_column, Column}
use nivara_api_nestjs.Pagination.Cursor.{string_value, SortValue, encode_cursor}
use nivara_api_nestjs.Shared.{
  last?, take, if◌then◌else◌, length, ltb, some, Bool, Option, none, List, String, [], ℕ,
}
use nivara_api_nestjs.Errors.{no_cause, driver, ok, throw, ◌>>=◌, Result}
use nivara_api_nestjs.Pagination.Sorting.{Sort}
use nivara_api_nestjs.Value.{Value}
use Prim.Native.Nat.{ℕ}
use Prim.Native.String.{String, []}

pub record Page (R : Type 0) : Type 0 where
  pub page_data : List R
  pub next_cursor : Option String

abbrev pub empty_page : {R : Type 0} → Page R
empty_page = record { page_data = []; next_cursor = none }

-- `none` is a field that is missing or no scalar.
unfoldable pub sort_value_in_column : (ℕ → String) → Option Column → Result SortValue
sort_value_in_column iso none = throw (driver none no_cause)
sort_value_in_column iso (some (date_column d)) = ok (string_value (iso d))
sort_value_in_column iso (some (scalar_column v)) = ok v

module _ {R : Type 0} (id_of : R → String) (column_of : String → R → Option Column)
    (iso : ℕ → String) (print : Value → String) where
  unfoldable pub sort_value_of : R → String → Result SortValue
  unfolding sort_value_in_column
  sort_value_of row field = sort_value_in_column iso (column_of field row)

  unfoldable pub next_page : List R → Sort → R → Result (Page R)
  unfolding sort_value_of encode_cursor
  next_page rows sort anchor = sort_value_of anchor sort.field >>= λ value. ok (record {
    page_data = rows;
    next_cursor =
        some (encode_cursor print (record { sort = sort; value = value; id = id_of anchor }));
  })

  unfoldable pub page_from : Bool → List R → Sort → Option R → Result (Page R)
  unfolding next_page
  page_from Bool.true rows sort (some anchor) = next_page rows sort anchor
  page_from _ rows sort _ = ok (record { page_data = rows; next_cursor = none })

  unfoldable pub build_page : List R → ℕ → Sort → Result (Page R)
  unfolding page_from
  build_page rows limit sort =
      let has_more = ltb limit (length rows) in
      let shown = if has_more then take limit rows else rows in
      page_from has_more shown sort (last? shown)
