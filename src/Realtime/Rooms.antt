-- ===== src/Realtime/Rooms.antt =====
-- src/realtime/rooms.ts: the names of rooms, and the parser that a room name is read back with.
pub mod RoundTrip
use Prim.Native.String.{String}
use nivara_api_nestjs.Shared.{
  ℕ, Option, none, some, List, [], ◌∷◌, str_eq, is_uuid, ◌==◌, if◌then◌else◌, split_on,
  strip_prefix,
}
use Prim.Native.String

pub data Room : Type 0 where
  agents : (tenant_id : String) → Room
  ticket internal : (tenant_id ticket_id : String) → Room

unfoldable pub agents_room : String → String
agents_room t = String.◌++◌ "t:" (String.◌++◌ t ":agents")

unfoldable pub ticket_room : String → String → String
ticket_room t k = String.◌++◌ "t:" (String.◌++◌ t (String.◌++◌ ":ticket:" k))

unfoldable pub internal_room : String → String → String
internal_room t k =
    String.◌++◌ "t:" (String.◌++◌ t (String.◌++◌ ":ticket:" (String.◌++◌ k ":internal")))

parse_ticket : String → List String → Option Room
parse_ticket t (k ∷ []) = if is_uuid k then some (ticket t k) else none
parse_ticket t (k ∷ last ∷ []) =
    if is_uuid k then if str_eq last "internal" then some (internal t k) else none else none
parse_ticket t _ = none

parse_rest : String → List String → Option Room
unfolding parse_ticket
parse_rest t [] = none
parse_rest t (r ∷ []) = if str_eq r "agents" then some (agents t) else none
parse_rest t (r ∷ k ∷ rest) = if str_eq r "ticket" then parse_ticket t (k ∷ rest) else none

unfoldable pub parse_parts : List String → Option Room
unfolding parse_rest
parse_parts [] = none
parse_parts (t ∷ rest) = if is_uuid t then parse_rest t rest else none

unfoldable pub parse_room : String → Option Room
unfolding parse_parts strip_prefix split_on
parse_room name = elim (strip_prefix "t:" name) [
  | none ↦ none
  | some body ↦ parse_parts (split_on b':' body)
]
