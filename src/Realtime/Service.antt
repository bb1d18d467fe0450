-- ===== src/Realtime/Service.antt =====
-- src/realtime/realtime.service.ts: each announcement appends to the log and hands the envelope to
-- the gateway. Delivery to the sockets is the gateway's; here it is the list of envelopes that it
-- is given, in order.
pub mod Privacy
use nivara_api_nestjs.Shared.{[], ◌∷◌, ◌++◌, List, String, ℕ}
use nivara_api_nestjs.Realtime.EventLog.Store.{append, EventLog}
use nivara_api_nestjs.Realtime.Events.{
  of_breach, of_entry, of_failure, Payload, integration_failed, message_created, note_created,
  sla_breached, ticket_assigned, ticket_created, ticket_updated, IntegrationFailureSnapshot,
  RealtimeEnvelope, RealtimeEvent, SlaBreachSnapshot, of_ticket, ThreadEntrySnapshot,
  TicketSnapshot,
}
use nivara_api_nestjs.Realtime.Rooms.{agents_room, internal_room, ticket_room}
use Prim.Native.Nat.{ℕ}
use nivara_api_nestjs.Domain.{Message, Ticket}

-- The log after a call, and what was delivered.
abbrev pub Published : Type 0
Published = EventLog × List RealtimeEnvelope

unfoldable pub publish : EventLog → ℕ → String → RealtimeEvent → Payload → Published
publish s now room event payload = let (s', e) = append s room event payload now in (s', e ∷ [])

unfoldable pub ticket_snapshot : Ticket → TicketSnapshot
ticket_snapshot t = record {
  id = t.id;
  subject = t.subject;
  state = t.state;
  priority = t.priority;
  source = t.source;
  contact_id = t.contact_id;
  assignee_id = t.assignee_id;
  spawned_from_ticket_id = t.spawned_from_ticket_id;
  root_ticket_id = t.root_ticket_id;
  created_at = t.created_at;
  updated_at = t.updated_at;
}

unfoldable pub thread_entry : Message → ThreadEntrySnapshot
thread_entry m = record {
  id = m.id;
  ticket_id = m.ticket_id;
  body = m.body;
  author_kind = m.author_kind;
  author_id = m.author_id;
  created_at = m.created_at;
}

unfoldable pub announce_created : EventLog → ℕ → Ticket → Published
unfolding publish ticket_snapshot
announce_created s now t =
    publish s now (agents_room t.tenant_id) ticket_created (of_ticket (ticket_snapshot t))

unfoldable pub announce_updated : EventLog → ℕ → Ticket → Published
unfolding publish ticket_snapshot
announce_updated s now t =
    let snapshot = of_ticket (ticket_snapshot t) in
    let (s', first) = publish s now (agents_room t.tenant_id) ticket_updated snapshot in
    let (s'', second) = publish s' now (ticket_room t.tenant_id t.id) ticket_updated snapshot in
    (s'', first ++ second)

unfoldable pub announce_assigned : EventLog → ℕ → Ticket → Published
unfolding publish ticket_snapshot
announce_assigned s now t =
    publish s now (agents_room t.tenant_id) ticket_assigned (of_ticket (ticket_snapshot t))

unfoldable pub announce_message : EventLog → ℕ → Message → Published
unfolding publish thread_entry
announce_message s now m =
    publish s now (ticket_room m.tenant_id m.ticket_id) message_created (of_entry (thread_entry m))

unfoldable pub announce_note : EventLog → ℕ → Message → Published
unfolding publish thread_entry
announce_note s now m =
    publish s now (internal_room m.tenant_id m.ticket_id) note_created (of_entry (thread_entry m))

unfoldable pub announce_breach : EventLog → ℕ → String → SlaBreachSnapshot → Published
unfolding publish
announce_breach s now tenant_id breach =
    publish s now (agents_room tenant_id) sla_breached (of_breach breach)

unfoldable pub announce_failure : EventLog → ℕ → String → IntegrationFailureSnapshot → Published
unfolding publish
announce_failure s now tenant_id failure =
    publish s now (agents_room tenant_id) integration_failed (of_failure failure)

-- The calls of the service, as values. A Note has the columns of a Message.
pub data Announcement : Type 0 where
  created updated assigned : Ticket → Announcement
  message note : Message → Announcement
  breached : String → SlaBreachSnapshot → Announcement
  failed : String → IntegrationFailureSnapshot → Announcement

unfoldable pub announce : EventLog → ℕ → Announcement → Published
unfolding announce_created announce_updated announce_assigned announce_message announce_note
    announce_breach announce_failure
announce s now (created t) = announce_created s now t
announce s now (updated t) = announce_updated s now t
announce s now (assigned t) = announce_assigned s now t
announce s now (message m) = announce_message s now m
announce s now (note m) = announce_note s now m
announce s now (breached t b) = announce_breach s now t b
announce s now (failed t f) = announce_failure s now t f
