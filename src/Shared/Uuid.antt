-- ===== src/Shared/Uuid.antt =====
-- The uuid patterns of src/tenancy/tenant-context.ts and src/realtime/rooms.ts:
-- 8, 4, 4, 4 and 12 hexadecimal digits, joined by hyphens, in either case.
use Prim.Native.Nat.{ℕ, zero, suc}
use Prim.Native.Char.{code}
use Prim.Native.String.{String}
use mathlib.Core.Bool.{Bool, true, false, ◌&&◌, ◌||◌}
use mathlib.Core.Option.{Option, none, some}
use mathlib.Core.List.{List, [], ◌∷◌}
use nivara_api_nestjs.Shared.Tests.{leb, ◌==◌, if◌then◌else◌}

abbrev pub codes : String → List ℕ
codes String.[] = []
codes (String.◌∷◌ c s) = code c ∷ codes s

unfoldable pub is_hex : ℕ → Bool
is_hex c = leb b'0' c && leb c b'9' || leb b'a' c && leb c b'f' || leb b'A' c && leb c b'F'

-- `n` hexadecimal digits, and what follows them
unfoldable pub hex_run : ℕ → List ℕ → Option (List ℕ)
hex_run zero cs = some cs
hex_run (suc n) [] = none
hex_run (suc n) (c ∷ cs) = let rest = hex_run n cs in if is_hex c then rest else none

unfoldable pub hyphen : List ℕ → Option (List ℕ)
hyphen [] = none
hyphen (c ∷ cs) = if c == b'-' then some cs else none

unfoldable pub groups : List ℕ → List ℕ → Option (List ℕ)
groups [] cs = some cs
groups (n ∷ []) cs = hex_run n cs
groups (n ∷ m ∷ ns) cs = elim (hex_run n cs) [
  | none ↦ none
  | some after ↦ elim (hyphen after) [ none ↦ none | some rest ↦ groups (m ∷ ns) rest ]
]

unfoldable pub at_end : Option (List ℕ) → Bool
at_end (some []) = true
at_end _ = false

unfoldable pub is_uuid : String → Bool
unfolding groups hex_run hyphen is_hex at_end
is_uuid s = at_end (groups (8 ∷ 4 ∷ 4 ∷ 4 ∷ 12 ∷ []) (codes s))
