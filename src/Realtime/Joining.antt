-- ===== src/Realtime/Joining.antt =====
-- src/realtime/can-join.ts: whether a principal may join a room by its name alone.
use nivara_api_nestjs.Shared.{
  refl, eq_iff, arith, none, some, str_eq, false, not, if◌then◌else◌, true, ◌↔◌, Option, ◌≡◌,
  String,
}
use nivara_api_nestjs.Realtime.Rooms.{ticket, internal, parse_room, agents, Room}
use nivara_api_nestjs.Realtime.Events.{is_staff, RealtimePrincipal, realtime_tenant}
use Prim.Native.String.{String}

pub data JoinVerdict : Type 0 where
  allow deny requires_requester_match : JoinVerdict

unfoldable pub by_kind : Room → JoinVerdict
by_kind (agents t) = deny
by_kind (internal t k) = deny
by_kind (ticket t k) = requires_requester_match

unfoldable pub room_tenant : Room → String
room_tenant (agents t) = t
room_tenant (ticket t k) = t
room_tenant (internal t k) = t

unfoldable pub join_room : RealtimePrincipal → Option Room → JoinVerdict
unfolding by_kind room_tenant realtime_tenant is_staff
join_room p none = deny
join_room p (some room) =
    if not (str_eq (room_tenant room) (realtime_tenant p))
    then deny
    else if is_staff p
    then allow
    else by_kind room

unfoldable pub can_join : RealtimePrincipal → String → JoinVerdict
unfolding join_room
can_join p room_name = join_room p (parse_room room_name)

join_room-eq-allow :
    (p : RealtimePrincipal) (o : Option Room)
    → join_room p o ≡ allow
    → (is_staff p ≡ true) × ((r : Room) × (o ≡ some r) × (room_tenant r ≡ realtime_tenant p))
unfolding join_room
join_room-eq-allow p none e = cc
join_room-eq-allow p (some r) e =
    (ground arith, (r, refl, ground (arith, eq_iff (room_tenant r) (realtime_tenant p))))

join_room-eq-match :
    (p : RealtimePrincipal) (o : Option Room)
    → join_room p o ≡ requires_requester_match
    → (is_staff p ≡ false) × ((k : String) × (o ≡ some (ticket (realtime_tenant p) k)))
unfolding join_room
join_room-eq-match p none e = cc
join_room-eq-match p (some (agents t)) e = absurd (ground arith)
join_room-eq-match p (some (internal t k)) e = absurd (ground arith)
join_room-eq-match p (some (ticket t k)) e =
    (ground arith, (k, ground (arith, eq_iff t (realtime_tenant p))))

join_room_of_own :
    (p : RealtimePrincipal) (r : Room)
    → room_tenant r ≡ realtime_tenant p
    → join_room p (some r) ≡ (if is_staff p then allow else by_kind r)
unfolding join_room
join_room_of_own p r h = ground (arith, eq_iff (room_tenant r) (realtime_tenant p))

-- A room may be joined by its name exactly by staff of the tenant that the name is of, and needs
-- the requester check exactly for a customer and a ticket's own room of its own tenant.
pub can_join_verdicts :
    (p : RealtimePrincipal) (name : String)
    → ((can_join p name ≡ allow) ↔ (
        (is_staff p ≡ true)
        × ((r : Room) × (parse_room name ≡ some r) × (room_tenant r ≡ realtime_tenant p))))
      × ((can_join p name ≡ requires_requester_match) ↔ (
          (is_staff p ≡ false)
          × ((k : String) × (parse_room name ≡ some (ticket (realtime_tenant p) k)))))
unfolding can_join
can_join_verdicts p name = (
  (join_room-eq-allow p (parse_room name), λ h. rw (h.1.1, join_room_of_own p h.1.0 h.1.2, h.0)),
  (
    join_room-eq-match p (parse_room name),
    λ h. rw (h.1.1, join_room_of_own p (ticket (realtime_tenant p) h.1.0) refl, h.0),
  ),
)
