-- ===== src/Realtime/Events.antt =====
-- src/realtime/events.ts and src/realtime/realtime-principal.ts: the catalog of events, the
-- payloads and envelopes, and who is told of what.
use nivara_api_nestjs.Domain.{TicketSource, TicketPriority, TicketState}
use nivara_api_nestjs.Principal.Context.{ActorKind}
use nivara_api_nestjs.Shared.{ℕ, Bool, true, false, ◌||◌, Option, none, some, String}
use nivara_api_nestjs.Principal.{
  StaffPrincipal, ContactPrincipal, WidgetPrincipal, RequestPrincipal, staff, requester, visitor,
  machine,
}

pub data RealtimeEvent : Type 0 where
  ticket_created ticket_updated ticket_assigned message_created note_created : RealtimeEvent
  sla_breached integration_failed : RealtimeEvent

pub data Audience : Type 0 where
  everyone staff_only : Audience

unfoldable pub audience_of : RealtimeEvent → Audience
audience_of ticket_created = everyone
audience_of ticket_updated = everyone
audience_of ticket_assigned = everyone
audience_of message_created = everyone
audience_of note_created = staff_only
audience_of sla_breached = staff_only
audience_of integration_failed = staff_only

-- A `RequestPrincipal` that is no service token.
pub data RealtimePrincipal : Type 0 where
  member : StaffPrincipal → RealtimePrincipal
  contact : ContactPrincipal → RealtimePrincipal
  widget : WidgetPrincipal → RealtimePrincipal

unfoldable pub realtime_tenant : RealtimePrincipal → String
realtime_tenant (member p) = p.tenant_id
realtime_tenant (contact p) = p.tenant_id
realtime_tenant (widget p) = p.tenant_id

unfoldable pub is_staff : RealtimePrincipal → Bool
is_staff (member p) = true
is_staff (contact p) = false
is_staff (widget p) = false

unfoldable pub realtime_principal_of : RequestPrincipal → Option RealtimePrincipal
realtime_principal_of (machine p) = none
realtime_principal_of (staff p) = some (member p)
realtime_principal_of (requester p) = some (contact p)
realtime_principal_of (visitor p) = some (widget p)

for_all : Audience → Bool
for_all everyone = true
for_all staff_only = false

unfoldable pub can_receive : RealtimePrincipal → RealtimeEvent → Bool
unfolding for_all audience_of is_staff
can_receive p event = for_all (audience_of event) || is_staff p

pub record TicketSnapshot : Type 0 where
  pub id : String
  pub subject : String
  pub state : TicketState
  pub priority : TicketPriority
  pub source : TicketSource
  pub contact_id : String
  pub assignee_id : Option String
  pub spawned_from_ticket_id : Option String
  pub root_ticket_id : Option String
  pub created_at : ℕ
  pub updated_at : ℕ

pub record ThreadEntrySnapshot : Type 0 where
  pub id : String
  pub ticket_id : String
  pub body : String
  pub author_kind : ActorKind
  pub author_id : Option String
  pub created_at : ℕ

pub data SlaTimer : Type 0 where
  first_response resolution : SlaTimer

pub record SlaBreachSnapshot : Type 0 where
  pub ticket_id : String
  pub timer : SlaTimer
  pub breached_at : ℕ

pub record IntegrationFailureSnapshot : Type 0 where
  pub ticket_id : String
  pub message_id : String
  pub source : String
  pub target : String
  pub error : String

-- `RealtimePayloads`, as one type of values. A timestamp's ISO text stands for its instant.
pub data Payload : Type 0 where
  of_ticket : TicketSnapshot → Payload
  of_entry : ThreadEntrySnapshot → Payload
  of_breach : SlaBreachSnapshot → Payload
  of_failure : IntegrationFailureSnapshot → Payload

pub record RealtimeEnvelope : Type 0 where
  pub event : RealtimeEvent
  pub room : String
  pub seq : ℕ
  pub ts : ℕ
  pub payload : Payload
