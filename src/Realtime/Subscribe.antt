-- ===== src/Realtime/Subscribe.antt =====
-- src/realtime/subscribe-request.ts: reading the body of a subscription.
use nivara_api_nestjs.Value.{undefined, max_safe_integer, whole, object, text, Value, get_field}
use nivara_api_nestjs.Shared.{
  eq_iff, arith, leb, str_eq, ◌≤◌, if◌then◌else◌, none, ◌≢◌, some, ℕ, ◌≡◌, Option, String,
}
use Prim.Native.String.{String}

pub record SubscribeRequest : Type 0 where
  pub room : String
  pub after_seq : ℕ

-- `typeof room === 'string' && room !== ''`
room_text : Value → Option String
room_text (text s) = if str_eq s "" then none else some s
room_text _ = none

-- A missing cursor is 0; any other must be a safe integer that is not negative.
cursor_of : Value → Option ℕ
cursor_of undefined = some 0
cursor_of (whole n) = if leb n max_safe_integer then some n else none
cursor_of _ = none

unfoldable pub parse_room_name : Value → Option String
unfolding room_text get_field
parse_room_name (object fields) = room_text (get_field "room" fields)
parse_room_name _ = none

with_cursor : Option String → Value → Option SubscribeRequest
unfolding cursor_of
with_cursor none v = none
with_cursor (some room) v = elim (cursor_of v) [
  | none ↦ none
  | some n ↦ some (record { room = room; after_seq = n })
]

unfoldable pub parse_subscribe : Value → Option SubscribeRequest
unfolding with_cursor room_text get_field
parse_subscribe (object fields) =
    with_cursor (room_text (get_field "room" fields)) (get_field "afterSeq" fields)
parse_subscribe _ = none

cursor_of-le : (v : Value) (n : ℕ) → cursor_of v ≡ some n → n ≤ max_safe_integer
unfolding cursor_of
cursor_of-le undefined n e = ground arith
cursor_of-le (whole m) n e = ground arith
cursor_of-le _ n e = cc

room_text-eq : (v : Value) (r : String) → room_text v ≡ some r → r ≢ ""
unfolding room_text
room_text-eq (text s) r e = λ z. ground (arith, eq_iff s "")
room_text-eq _ r e = cc

with_cursor_sound :
    (name cursor : Value) (r : SubscribeRequest)
    → with_cursor (room_text name) cursor ≡ some r
    → (room_text name ≡ some r.room) × (r.room ≢ "") × (r.after_seq ≤ max_safe_integer)
unfolding with_cursor
with_cursor_sound name cursor r e = (
  ground arith,
  λ z. ground (arith, room_text-eq name r.room),
  ground (arith, cursor_of-le cursor r.after_seq),
)

-- A subscription is read only with the room name that `parseRoomName` reads, which is not empty,
-- and a cursor that is a safe integer.
pub parse_subscribe_sound :
    (body : Value) (r : SubscribeRequest)
    → parse_subscribe body ≡ some r
    → (parse_room_name body ≡ some r.room) × (r.room ≢ "") × (r.after_seq ≤ max_safe_integer)
unfolding parse_subscribe parse_room_name with_cursor
parse_subscribe_sound (object fields) r e =
    with_cursor_sound (get_field "room" fields) (get_field "afterSeq" fields) r e
parse_subscribe_sound _ r e = cc
