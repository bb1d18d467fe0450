-- ===== src/Pagination/Sorting.antt =====
-- src/common/pagination/sort.ts.
use nivara_api_nestjs.Errors.{invalid_sort, fail, throw, ok, Result}
use nivara_api_nestjs.Shared.{
  includes, none, not, false, if◌then◌else◌, some, Option, true, Bool, List, String, strip_prefix,
}
use mathlib.Core.Option.{none}
use Prim.Native.String.{String}

pub data Direction : Type 0 where
  asc desc : Direction

pub record Sort : Type 0 where
  pub field : String
  pub direction : Direction

abbrev pub default_sort : Sort
default_sort = record { field = "createdAt"; direction = desc }

sort_by : List String → Direction → String → Result Sort
sort_by allowed direction field =
    if not (includes allowed field)
    then throw (fail invalid_sort)
    else ok (record { field = field; direction = direction })

sort_of : List String → String → Option String → Result Sort
unfolding sort_by
sort_of allowed raw none = sort_by allowed asc raw
sort_of allowed raw (some field) = sort_by allowed desc field

unfoldable pub parse_sort : Option String → List String → Sort → Result Sort
unfolding sort_of strip_prefix
parse_sort none allowed fallback = ok fallback
parse_sort (some raw) allowed fallback = sort_of allowed raw (strip_prefix "-" raw)

unfoldable pub same_direction : Direction → Direction → Bool
same_direction asc asc = true
same_direction desc desc = true
same_direction asc desc = false
same_direction desc asc = false
