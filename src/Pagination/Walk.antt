-- ===== src/Pagination/Walk.antt =====
-- A client that follows `nextCursor` through a list: the query that a service makes of a plan of
-- src/common/pagination/keyset.ts, and the pages that src/common/pagination/page.ts builds of it.
-- `less` and `same` are the database's order and equality of columns, `id_less` its order of ids;
-- a comparison with a missing column does not hold.
use Prim.Native.Nat.{zero}
use nivara_api_nestjs.Shared.{
  filter_by, zero, suc, ◌++◌, take, [], str_eq, ◌&&◌, if◌then◌else◌, ◌||◌, none, ◌∷◌, false, true,
  List, some, ℕ, Bool, Option, String,
}
use nivara_api_nestjs.Errors.{ok, primitive, ◌>>=◌, throw, Result}
use nivara_api_nestjs.Pagination.Keyset.{
  KeysetPlan, keyset_plan, SortableFields, seek_field, seek_id, Where, Column,
}
use nivara_api_nestjs.Pagination.Page.{Page, build_page}
use nivara_api_nestjs.Pagination.Sorting.{Sort, desc, asc, Direction}
use Prim.Native.String.{◌∷◌, String}
use mathlib.Core.Option.{none}
use nivara_api_nestjs.Value.{Value}
use nivara_api_nestjs.Pagination.Cursor.{SortValue}

module _ {R : Type 0} (id_of : R → String) (column_of : String → R → Option Column)
    (less same : Column → Column → Bool) (id_less : String → String → Bool) where
  unfoldable pub beyond : Direction → Column → Column → Bool
  beyond asc anchor c = less anchor c
  beyond desc anchor c = less c anchor

  unfoldable pub id_beyond : Direction → String → String → Bool
  id_beyond asc anchor id = id_less anchor id
  id_beyond desc anchor id = id_less id anchor

  unfoldable pub column_beyond : Direction → Option Column → Option Column → Bool
  unfolding beyond
  column_beyond direction (some anchor) (some c) = beyond direction anchor c
  column_beyond direction _ _ = false

  unfoldable pub column_same : Option Column → Option Column → Bool
  column_same (some anchor) (some c) = same anchor c
  column_same _ _ = false

  -- The rows of a clause.
  unfoldable pub holds : Where → R → Bool
  unfolding id_beyond column_beyond column_same
  holds (seek_id direction anchor) r = id_beyond direction anchor (id_of r)
  holds (seek_field f direction value anchor) r =
      column_beyond direction (some value) (column_of f r)
      || (column_same (some value) (column_of f r) && id_beyond direction anchor (id_of r))

  unfoldable pub meets : Option Where → R → Bool
  unfolding holds
  meets none r = true
  meets (some condition) r = holds condition r

  -- Whether an `orderBy` puts the second row after the first.
  unfoldable pub comes_after : List (String × Direction) → R → R → Bool
  unfolding id_beyond column_beyond column_same
  comes_after [] a r = false
  comes_after (o ∷ os) a r =
      let next = comes_after os a r in
      if str_eq o.0 "id"
      then id_beyond o.1 (id_of a) (id_of r) || (str_eq (id_of a) (id_of r) && next)
      else column_beyond o.1 (column_of o.0 a) (column_of o.0 r)
        || (column_same (column_of o.0 a) (column_of o.0 r) && next)

  module _ (iso : ℕ → String) (new_date : SortValue → ℕ) (print : Value → String)
      (parse : String → Option Value) (sort : Sort) (fields : SortableFields) (limit : ℕ)
      (table : List R) where
    -- `findMany({ where, orderBy, take: limit + 1 })` on a table in the order of `orderBy`
    unfoldable pub fetch : KeysetPlan → Result (Page R)
    unfolding build_page meets
    fetch plan =
        build_page id_of column_of iso print
          (take (suc limit) (filter_by (meets plan.condition) table)) limit sort

    unfoldable pub page_at : Option String → Result (Page R)
    unfolding fetch keyset_plan
    page_at cursor = keyset_plan parse new_date sort cursor fields >>= fetch

    -- The client stops at the page without a next cursor.
    unfoldable pub next_pages :
        (Option String → Result (List R)) → Page R → Option String → Result (List R)
    next_pages rest page none = ok page.page_data
    next_pages rest page (some cursor) = rest (some cursor) >>= λ rows. ok (page.page_data ++ rows)

    -- `throw` stands for fuel that runs out.
    unfoldable pub walk : ℕ → Option String → Result (List R)
    unfolding page_at next_pages
    walk zero cursor = throw primitive
    walk (suc n) cursor = page_at cursor >>= λ page. next_pages (walk n) page page.next_cursor
