-- ===== src/Pagination/Traversal.antt =====
-- The pages of src/common/pagination together are the list: following `nextCursor` from the first
-- page on yields every row of the table once, in its order.
use nivara_api_nestjs.Pagination.Seeking.{
  position_at, carried, returned, assert_cursor_matches_sort-own, cursor_value,
  seek_past-comes_after, Listed,
}
use nivara_api_nestjs.Shared.{
  sym, length-append, false, lt→ltb, ◌+◌, ltb→lt, ◌≤◌, zero, ltb, ◌<◌, length, ◌∙◌, [], filter_by,
  true, ap, refl, ◌∷◌, ◌++◌, none, take, suc, List, arith, inr, inl, Bool-cases, some, ◌≡◌, Bool, ℕ,
  Option, String,
}
use nivara_api_nestjs.Pagination.Cuts.{
  append-assoc_cons, last?-append, take-take-suc, cut, length-take-suc, take-all, Cut,
  filter_by-Ordered, filter_by-cong, Ordered,
}
use Prim.Native.Nat.{zero}
use nivara_api_nestjs.Pagination.Page.{
  next_page, page_from, build_page, Page, sort_value_in_column, sort_value_of,
}
use nivara_api_nestjs.Pagination.Walk.{next_pages, walk, meets, fetch, page_at, comes_after}
use nivara_api_nestjs.Pagination.Keyset.{
  KeysetPlan, Where, plan_for, plan_at, keyset_plan, decode_value, SortableFields, order_by_for,
  seek_past, Column,
}
use nivara_api_nestjs.Pagination.Sorting.{Sort}
use nivara_api_nestjs.Pagination.Cursor.{
  CursorPosition, decode_cursor-encode_cursor, encode_cursor, SortValue,
}
use nivara_api_nestjs.Errors.{ok, Result}
use nivara_api_nestjs.Value.{Value}
use Prim.Native.String.{String}

module _ {R : Type 0} (id_of : R → String) (column_of : String → R → Option Column)
    (less same : Column → Column → Bool) (id_less : String → String → Bool) where
  module _ (iso : ℕ → String) (new_date : SortValue → ℕ) (print : Value → String)
      (parse : String → Option Value) (sort : Sort) (fields : SortableFields)
      (listed : Listed id_of column_of iso new_date print parse sort fields) (limit : ℕ)
      (table : List R) where
    abbrev after : R → R → Bool
    after = comes_after id_of column_of less same id_less (order_by_for sort)

    abbrev built : List R → Result (Page R)
    built rows = build_page id_of column_of iso print (take (suc (suc limit)) rows) (suc limit) sort

    abbrev page : Option String → Result (Page R)
    page =
        page_at id_of column_of less same id_less iso new_date print parse sort fields (suc limit)
          table

    abbrev position : R → CursorPosition
    position a = position_at iso sort (listed.column a) (id_of a)

    sort_value_of-row :
        (a : R)
        → sort_value_of id_of column_of iso print a sort.field
          ≡ ok (cursor_value iso (listed.column a))
    unfolding sort_value_of sort_value_in_column
    sort_value_of-row a = rw (listed.is_column a) (carried iso (listed.column a))

    decode_value-row :
        (a : R)
        → decode_value new_date (cursor_value iso (listed.column a)) listed.kind ≡ listed.column a
    unfolding decode_value
    decode_value-row a = returned iso new_date (listed.matches a)

    fetch-built :
        (plan : KeysetPlan) (ys : List R)
        → filter_by (meets id_of column_of less same id_less plan.condition) table ≡ ys
        → fetch id_of column_of less same id_less iso new_date print parse sort fields
            (suc limit)
            table
            plan
          ≡ built ys
    unfolding fetch
    fetch-built plan ys e = rw e refl

    meets-all : (xs : List R) → filter_by (meets id_of column_of less same id_less none) xs ≡ xs
    unfolding filter_by meets
    meets-all [] = refl
    meets-all (x ∷ xs) = ap (◌∷◌ x) (meets-all xs)

    seek : R → Where
    seek a = seek_past sort (listed.column a) (id_of a)

    matching :
        (xs : List R) (a : R) (ys : List R)
        → table ≡ xs ++ a ∷ ys
        → Ordered after table
        → filter_by (meets id_of column_of less same id_less (some (seek a))) table ≡ ys
    unfolding meets seek
    matching xs a ys split ordered =
        let cong =
          filter_by-cong (meets id_of column_of less same id_less (some (seek a))) (after a)
            (λ r.
              seek_past-comes_after id_of column_of less same id_less sort (listed.column a) a r
                (listed.is_column a))
            table in
        let ordered' : Ordered after (xs ++ a ∷ ys) = rw split at ordered in
        let e : filter_by (after a) table ≡ ys =
          rw split (filter_by-Ordered after xs a ys ordered') in
        cong ∙ e

    page_at-first : page none ≡ built table
    unfolding page_at keyset_plan
    page_at-first =
        fetch-built (record { order_by = order_by_for sort; condition = none }) table
          (meets-all table)

    page_at-next :
        (xs : List R) (a : R) (ys : List R)
        → table ≡ xs ++ a ∷ ys
        → Ordered after table
        → page (some (encode_cursor print (position a))) ≡ built ys
    unfolding page_at keyset_plan plan_at plan_for seek
    page_at-next xs a ys split ordered =
        rw
          (
            decode_cursor-encode_cursor print parse (position a) (listed.inverse a),
            assert_cursor_matches_sort-own (position a),
            listed.is_declared,
            decode_value-row a,
          )
          (fetch-built (record { order_by = order_by_for sort; condition = some (seek a) }) ys
            (matching xs a ys split ordered))

    -- The last page, and a page that is not the last.
    built-last :
        (rows : List R)
        → length rows ≤ suc limit
        → built rows ≡ ok (record { page_data = rows; next_cursor = none })
    unfolding build_page page_from
    built-last rows short =
        let all = take-all (suc (suc limit)) rows (omega (arith, short)) in
        let fits : ltb (suc limit) (length rows) ≡ false = ground arith in rw (all, fits) refl

    built-more :
        (rows : List R) (c : Cut limit rows)
        → suc limit < length rows
        → built rows
          ≡ ok (record {
            page_data = c.before ++ c.anchor ∷ [];
            next_cursor = some (encode_cursor print (position c.anchor));
          })
    unfolding build_page page_from next_page
    built-more rows c long =
        let longer = length-take-suc (suc limit) rows long in
        let over : ltb (suc limit) (length (take (suc (suc limit)) rows)) ≡ true =
          lt→ltb (suc limit) (length (take (suc (suc limit)) rows)) longer in
        rw
          (
            over,
            take-take-suc (suc limit) rows,
            c.taken,
            last?-append c.before c.anchor,
            sort_value_of-row c.anchor,
          )
          refl

    -- A page and the pages after it.
    walk-built :
        (n : ℕ) (cursor : Option String) (rows : List R)
        → page cursor ≡ built rows
        → ((xs : List R) (a : R) (ys : List R)
            → rows ≡ xs ++ a ∷ ys
            → page (some (encode_cursor print (position a))) ≡ built ys)
        → length rows < n
        → walk id_of column_of less same id_less iso new_date print parse sort fields
            (suc limit)
            table
            n
            cursor
          ≡ ok rows
    unfolding walk next_pages
    walk-built zero cursor rows e next enough = absurd (omega (arith, enough))
    walk-built (suc n) cursor rows e next enough =
        elim (Bool-cases (ltb (suc limit) (length rows))) [
          | inr last ↦ rw (e ∙ built-last rows ground arith) refl
          | inl more ↦
              let long = ltb→lt (suc limit) (length rows) more in
              let c = cut limit rows long in
              let sizes : length rows ≡ length c.before + suc (length c.rest) =
                ap length c.split ∙ length-append c.before (c.anchor ∷ c.rest) in
              let then =
                walk-built n (some (encode_cursor print (position c.anchor))) c.rest
                  (next c.before c.anchor c.rest c.split)
                  (λ xs a ys f.
                    next (c.before ++ c.anchor ∷ xs) a ys
                      (c.split ∙ rw f (append-assoc_cons c.before c.anchor xs (a ∷ ys))))
                  (omega (arith, sizes, enough)) in
              rw (e ∙ built-more rows c long, then)
                (ap ok (sym (c.split ∙ append-assoc_cons c.before c.anchor [] c.rest)))
        ]

    -- A client that follows `nextCursor` from the first page reads a table that is in the order
    -- of `orderBy` whole, every row once and in order, with as much fuel as there are rows and
    -- one, for every limit above 0, if the sort field is declared and present on every row and
    -- its columns and cursors are read back as they were written.
    pub walk_complete :
        (n : ℕ)
        → Ordered after table
        → length table < n
        → walk id_of column_of less same id_less iso new_date print parse sort fields
            (suc limit)
            table
            n
            none
          ≡ ok table
    walk_complete n ordered enough =
        walk-built n none table page_at-first (λ xs a ys split. page_at-next xs a ys split ordered)
          enough
