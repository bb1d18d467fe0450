-- ===== src/Realtime/Service/Privacy.antt =====
-- Where the announcements of src/realtime/realtime.service.ts go, and whom the join verdict keeps
-- out of there.
use nivara_api_nestjs.Realtime.Service.{
  ticket_snapshot, publish, ℕ, EventLog, announce, failed, breached, note, message, assigned,
  updated, RealtimeEnvelope, created, Announcement,
}
use nivara_api_nestjs.Realtime.Events.{
  of_ticket, message_created, ticket_updated, Payload, RealtimeEvent, everyone, staff_only,
  audience_of, is_staff, realtime_tenant, RealtimeEnvelope, RealtimePrincipal,
}
use nivara_api_nestjs.Shared.{
  refl, All, eq_iff, arith, ℕ, ◌∙◌, false, some, true, ◌≡◌, ◌≢◌, is_uuid, String,
}
use nivara_api_nestjs.Realtime.Rooms.RoundTrip.{parse_room-build}
use nivara_api_nestjs.Realtime.Rooms.{
  agents, internal, ticket, agents_room, internal_room, ticket_room, parse_room, Room,
}
use nivara_api_nestjs.Realtime.EventLog.Store.{append, EventLog}
use nivara_api_nestjs.Realtime.Joining.{by_kind, room_tenant, join_room, deny, can_join}
use nivara_api_nestjs.Shared.Uuid.{is_uuid}
use Prim.Native.String.{String}

-- The tenant and the ticket of an announcement are uuids.
abbrev pub IsKeyed : Announcement → Type 0
IsKeyed (created t) = (is_uuid t.tenant_id ≡ true) × (is_uuid t.id ≡ true)
IsKeyed (updated t) = (is_uuid t.tenant_id ≡ true) × (is_uuid t.id ≡ true)
IsKeyed (assigned t) = (is_uuid t.tenant_id ≡ true) × (is_uuid t.id ≡ true)
IsKeyed (message m) = (is_uuid m.tenant_id ≡ true) × (is_uuid m.ticket_id ≡ true)
IsKeyed (note m) = (is_uuid m.tenant_id ≡ true) × (is_uuid m.ticket_id ≡ true)
IsKeyed (breached t b) = (is_uuid t ≡ true) × (is_uuid b.ticket_id ≡ true)
IsKeyed (failed t f) = (is_uuid t ≡ true) × (is_uuid f.ticket_id ≡ true)

abbrev pub tenant_of_announcement : Announcement → String
tenant_of_announcement (created t) = t.tenant_id
tenant_of_announcement (updated t) = t.tenant_id
tenant_of_announcement (assigned t) = t.tenant_id
tenant_of_announcement (message m) = m.tenant_id
tenant_of_announcement (note m) = m.tenant_id
tenant_of_announcement (breached t b) = t
tenant_of_announcement (failed t f) = t

-- What holds of an envelope that is delivered for a tenant.
pub record IsPrivate (tenant : String) (e : RealtimeEnvelope) : Type 0 where
  pub own_tenant : (p : RealtimePrincipal) → realtime_tenant p ≢ tenant → can_join p e.room ≡ deny
  pub staff_events :
      (p : RealtimePrincipal)
      → is_staff p ≡ false
      → audience_of e.event ≡ staff_only
      → can_join p e.room ≡ deny

join_of_room :
    (p : RealtimePrincipal) (name : String) (r : Room)
    → parse_room name ≡ some r
    → can_join p name ≡ join_room p (some r)
unfolding can_join
join_of_room p name r e = rw e

join_room_of_other :
    (p : RealtimePrincipal) (r : Room)
    → realtime_tenant p ≢ room_tenant r
    → join_room p (some r) ≡ deny
unfolding join_room
join_room_of_other p r h = ground (arith, eq_iff (room_tenant r) (realtime_tenant p))

join_room_of_customer :
    (p : RealtimePrincipal) (r : Room)
    → is_staff p ≡ false
    → by_kind r ≡ deny
    → join_room p (some r) ≡ deny
unfolding join_room
join_room_of_customer p r h k = ground arith

-- An envelope in a room that customers are denied, and one that everybody may receive.
IsPrivate-of_denied :
    (e : RealtimeEnvelope) (r : Room)
    → parse_room e.room ≡ some r
    → by_kind r ≡ deny
    → IsPrivate (room_tenant r) e
IsPrivate-of_denied e r named denied = record {
  own_tenant = λ p h. join_of_room p e.room r named ∙ join_room_of_other p r h;
  staff_events = λ p h _. join_of_room p e.room r named ∙ join_room_of_customer p r h denied;
}

IsPrivate-of_everyone :
    (e : RealtimeEnvelope) (r : Room)
    → parse_room e.room ≡ some r
    → audience_of e.event ≡ everyone
    → IsPrivate (room_tenant r) e
IsPrivate-of_everyone e r named open_to = record {
  own_tenant = λ p h. join_of_room p e.room r named ∙ join_room_of_other p r h;
  staff_events = λ p h k. absurd (ground arith);
}

module _ (s : EventLog) (now : ℕ) (event : RealtimeEvent) (payload : Payload) where
  publish-agents :
      (t : String)
      → is_uuid t ≡ true
      → All (IsPrivate t) (publish s now (agents_room t) event payload).1
  unfolding publish append room_tenant
  publish-agents t h =
      (IsPrivate-of_denied _ (agents t) (parse_room-build t t h h).0 (unfold by_kind in refl), tt)

  publish-internal :
      (t k : String)
      → is_uuid t ≡ true
      → is_uuid k ≡ true
      → All (IsPrivate t) (publish s now (internal_room t k) event payload).1
  unfolding publish append room_tenant
  publish-internal t k h g = (
    IsPrivate-of_denied _ (internal t k) (parse_room-build t k h g).2 (unfold by_kind in refl),
    tt,
  )

  publish-ticket :
      (t k : String)
      → is_uuid t ≡ true
      → is_uuid k ≡ true
      → audience_of event ≡ everyone
      → All (IsPrivate t) (publish s now (ticket_room t k) event payload).1
  unfolding publish append room_tenant
  publish-ticket t k h g everybody =
      (IsPrivate-of_everyone _ (ticket t k) (parse_room-build t k h g).1 everybody, tt)

-- Whatever is announced about a tenant and a ticket with uuids is delivered only to rooms that a
-- principal of another tenant is denied, and an event for staff only is delivered only to rooms
-- that a customer is denied.
pub announce-IsPrivate :
    (s : EventLog) (now : ℕ) (a : Announcement)
    → IsKeyed a
    → All (IsPrivate (tenant_of_announcement a)) (announce s now a).1
unfolding announce
announce-IsPrivate s now (created t) (h, g) = publish-agents s now _ _ t.tenant_id h
announce-IsPrivate s now (updated t) (h, g) = (
  (publish-agents s now ticket_updated (of_ticket (ticket_snapshot t)) t.tenant_id h).0,
  publish-ticket
      (publish s now (agents_room t.tenant_id) ticket_updated (of_ticket (ticket_snapshot t))).0 now
      ticket_updated (of_ticket (ticket_snapshot t)) t.tenant_id t.id h g
      (unfold audience_of in refl),
)
announce-IsPrivate s now (assigned t) (h, g) = publish-agents s now _ _ t.tenant_id h
announce-IsPrivate s now (message m) (h, g) =
    publish-ticket s now message_created _ m.tenant_id m.ticket_id h g (unfold audience_of in refl)
announce-IsPrivate s now (note m) (h, g) = publish-internal s now _ _ m.tenant_id m.ticket_id h g
announce-IsPrivate s now (breached t b) (h, g) = publish-agents s now _ _ t h
announce-IsPrivate s now (failed t f) (h, g) = publish-agents s now _ _ t h
