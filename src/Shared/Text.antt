-- ===== src/Shared/Text.antt =====
-- JavaScript's operations on texts.
use Prim.Native.Char.{Char, code}
use Prim.Native.String.{String}
use Prim.Native.Nat.{ℕ, zero, suc, ◌/◌, ◌%◌}
use mathlib.Core.Bool.{Bool, ◌&&◌, ◌||◌}
use mathlib.Core.Option.{Option, none, some}
use mathlib.Core.List.{List, [], ◌∷◌}
use nivara_api_nestjs.Shared.Tests.{leb, ◌==◌, if◌then◌else◌}
use Prim.Native.String

-- `s.startsWith(prefix)` with `s.slice(prefix.length)`
unfoldable pub strip_prefix : String → String → Option String
strip_prefix String.[] s = some s
strip_prefix (String.◌∷◌ c p) String.[] = none
strip_prefix (String.◌∷◌ c p) (String.◌∷◌ d s) =
    let rest = strip_prefix p s in if code c == code d then rest else none

unfoldable pub prepend : Char → List String → List String
prepend c [] = []
prepend c (part ∷ parts) = (String.◌∷◌ c part) ∷ parts

-- `s.split(separator)`
unfoldable pub split_on : ℕ → String → List String
unfolding prepend
split_on sep String.[] = "" ∷ []
split_on sep (String.◌∷◌ c s) =
    let rest = split_on sep s in if code c == sep then "" ∷ rest else prepend c rest

-- `s.length`, of a text whose characters are one UTF-16 unit each
abbrev pub text_length : String → ℕ
text_length String.[] = 0
text_length (String.◌∷◌ c s) = suc (text_length s)

-- The white space and line terminators that `trim` takes off.
unfoldable pub is_space : ℕ → Bool
is_space c =
    leb 9 c && leb c 13
    || c == 32
    || c == 160
    || c == 5760
    || leb 8192 c && leb c 8202
    || c == 8232
    || c == 8233
    || c == 8239
    || c == 8287
    || c == 12288
    || c == 65279

unfoldable pub trim_start : String → String
unfolding is_space
trim_start String.[] = ""
trim_start (String.◌∷◌ c s) = if is_space (code c) then trim_start s else String.◌∷◌ c s

drop_space : Char → String → String
unfolding is_space
drop_space c String.[] = if is_space (code c) then "" else String.◌∷◌ c ""
drop_space c s = String.◌∷◌ c s

unfoldable pub trim_end : String → String
unfolding drop_space
trim_end String.[] = ""
trim_end (String.◌∷◌ c s) = drop_space c (trim_end s)

-- `s.trim()`
unfoldable pub trim : String → String
unfolding trim_start trim_end
trim s = trim_end (trim_start s)

unfoldable pub digit : ℕ → String
digit zero = "0"
digit (suc zero) = "1"
digit (suc (suc zero)) = "2"
digit (suc (suc (suc zero))) = "3"
digit (suc (suc (suc (suc zero)))) = "4"
digit (suc (suc (suc (suc (suc zero))))) = "5"
digit (suc (suc (suc (suc (suc (suc zero)))))) = "6"
digit (suc (suc (suc (suc (suc (suc (suc zero))))))) = "7"
digit (suc (suc (suc (suc (suc (suc (suc (suc zero)))))))) = "8"
digit _ = "9"

unfoldable pub decimal_from : ℕ → ℕ → String
unfolding digit
decimal_from zero n = ""
decimal_from (suc fuel) n =
    let before = decimal_from fuel (n / 10) in
    if n / 10 == 0 then digit n else String.◌++◌ before (digit (n % 10))

-- `${n}`; a number has fewer digits than its successor counts.
unfoldable pub decimal : ℕ → String
unfolding decimal_from
decimal n = decimal_from (suc n) n
