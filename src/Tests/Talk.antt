-- ===== src/Tests/Talk.antt =====
-- A contact replies to a closed ticket.
use nivara_api_nestjs.Shared.{Option, is_uuid, List, String, refl, none, ◌≡◌, [], some, ◌∷◌}
use nivara_api_nestjs.Outbound.Dispatch.{Outbox}
use nivara_api_nestjs.Tickets.Rows.{
  written, record_audit, route_taken, occupies, is_occupied, has_id, find_in, insert_ticket,
  is_visible, find_ticket, Db,
}
use nivara_api_nestjs.Conversation.Posting.{PostIds}
use nivara_api_nestjs.Tickets.StateMachine.{
  entries_of, row_of, is_rerouted, is_relinked, is_edit, enforce_transition, before_update,
  ticket_created, AuditEntry,
}
use nivara_api_nestjs.Shared.Uuid.{is_uuid}
use nivara_api_nestjs.Principal.Context.{context_settings, kind_contact, contact, TenantContext}
use nivara_api_nestjs.Principal.{tenant_context_for, requester, tenant_of}
use nivara_api_nestjs.Realtime.Service.{message, created, Announcement}
use nivara_api_nestjs.Conversation.Replying.{Replied, reply}
use nivara_api_nestjs.Domain.{Message, closed, portal, Ticket}
use nivara_api_nestjs.Tickets.Creations.{create_in-Created, Created}
use nivara_api_nestjs.Tickets.TicketService.{
  CreateTicketInput, created_entry, new_ticket, create_in,
}
use nivara_api_nestjs.Conversation.{
  in_chain_with, spawn_or_join_live, spawn, target_by, ReplyTarget, target_for, Meanwhile, append,
}
use nivara_api_nestjs.Conversation.Landing.{
  target_for_settles, target_for-Lands, Lands, Stands, Undisturbed,
}
use nivara_api_nestjs.Errors.{ok}
use nivara_api_nestjs.Tests.Samples.{ticket_id, acme, contact_principal, desk, open_ticket}

abbrev alone : Meanwhile
alone = record {
  before_search = λ db. db;
  before_write = λ db. db;
  between = λ db. db;
  before_post = λ db. db;
}

abbrev no_roots : String → Option String
no_roots id = none

alone-Undisturbed : Undisturbed no_roots alone
alone-Undisturbed = record { search = λ db r. r; write = λ db r. r; between = λ db r. r }

abbrev acme_contact : TenantContext
acme_contact = record { tenant_id = acme; actor = contact "c-1" }

abbrev closed_ticket : Ticket
closed_ticket = record open_ticket { state = closed }

abbrev quiet_desk : Db
quiet_desk = record desk { tickets = closed_ticket ∷ [] }

abbrev spawned_ticket : Ticket
spawned_ticket = record open_ticket {
  id = "t-2";
  spawned_from_ticket_id = some ticket_id;
  root_ticket_id = some ticket_id;
  created_at = 50;
  updated_at = 50;
  last_activity_at = 50;
}

abbrev spawned_entry : AuditEntry
spawned_entry = record {
  tenant_id = acme;
  action = ticket_created;
  actor = contact "c-1";
  target_id = "t-2";
  ticket_id = some "t-2";
  from_value = none;
  to_value = some "open";
  created_at = 50;
}

abbrev busy_desk : Db
busy_desk = record quiet_desk {
  tickets = closed_ticket ∷ spawned_ticket ∷ [];
  audit = spawned_entry ∷ [];
}

abbrev target : ReplyTarget
target = record { ticket = spawned_ticket; landing = spawn }

spawns :
    target_for "t-2" 50 alone acme_contact contact_principal portal 2 closed_ticket quiet_desk
    ≡ ok (busy_desk, target)
unfolding target_for target_by spawn_or_join_live create_in is_visible in_chain_with insert_ticket
    new_ticket find_in tenant_of has_id is_occupied occupies route_taken record_audit created_entry
spawns = refl

is_there : find_ticket acme_contact closed_ticket.id quiet_desk ≡ some closed_ticket
unfolding find_ticket is_visible
is_there = refl

target_for-Lands_example : Lands closed_ticket target × Stands acme_contact busy_desk target
target_for-Lands_example =
    target_for-Lands "t-2" 50 alone acme_contact contact_principal portal no_roots 0 closed_ticket
      quiet_desk busy_desk target alone-Undisturbed (refl, tt) is_there spawns

target_for_settles_example :
    target_for "t-2" 50 alone acme_contact contact_principal portal 7 closed_ticket quiet_desk
    ≡ target_for "t-2" 50 alone acme_contact contact_principal portal 2 closed_ticket quiet_desk
target_for_settles_example =
    target_for_settles "t-2" 50 alone acme_contact contact_principal portal 5 closed_ticket
      quiet_desk

abbrev asked : CreateTicketInput
asked = record {
  subject = "printer";
  contact_id = "c-1";
  source = portal;
  spawned_from_ticket_id = some ticket_id;
  slack_route = none;
}

files :
    create_in "t-2" 50 acme_contact (requester contact_principal) asked quiet_desk
    ≡ ok (busy_desk, spawned_ticket)
unfolding create_in is_visible insert_ticket new_ticket find_in tenant_of has_id is_occupied
    occupies route_taken record_audit created_entry
files = refl

create_in-Created_example :
    Created "t-2" 50 acme_contact
      (requester contact_principal)
      asked
      quiet_desk
      busy_desk
      spawned_ticket
create_in-Created_example =
    create_in-Created "t-2" 50 acme_contact (requester contact_principal) asked quiet_desk busy_desk
      spawned_ticket files

abbrev post_ids : PostIds
post_ids = record { message_id = "m-9"; delivery_id = "d-9"; job_id = "j-9" }

abbrev json_pair : String → String → String
json_pair a b = a

abbrev no_outbox : Outbox
no_outbox = record { deliveries = []; jobs = [] }

abbrev question : Message
question = record {
  id = "m-9";
  tenant_id = acme;
  ticket_id = "t-2";
  body = "Still broken.";
  author_kind = kind_contact;
  author_id = some "c-1";
  created_at = 50;
}

abbrev answered_desk : Db
answered_desk = record busy_desk { messages = question ∷ [] }

abbrev outcome : Replied × List Announcement
outcome = (
  ((answered_desk, no_outbox), spawn, record { ticket = spawned_ticket; message = question }),
  created spawned_ticket ∷ message question ∷ [],
)

-- An agent closes the ticket after it was read and before the message is inserted.
abbrev closing : Meanwhile
closing = record alone { before_post = λ db. record db { tickets = closed_ticket ∷ [] } }

abbrev late_question : Message
late_question = record question { ticket_id = ticket_id }

abbrev late_desk : Db
late_desk = record quiet_desk {
  tickets = record closed_ticket { last_activity_at = 50 } ∷ [];
  messages = late_question ∷ [];
}

appended_to_closed :
    reply json_pair "t-2" post_ids 50 closing contact_principal portal "Still broken." ticket_id
      desk no_outbox
    ≡ ok (
      ((late_desk, no_outbox), append, record { ticket = open_ticket; message = late_question }),
      message late_question ∷ [],
    )
unfolding reply tenant_context_for context_settings is_uuid find_ticket is_visible target_by written
    before_update is_relinked is_rerouted enforce_transition is_edit row_of entries_of
appended_to_closed = refl
