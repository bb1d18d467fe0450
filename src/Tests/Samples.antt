-- ===== src/Tests/Samples.antt =====
-- The data of the tests.
use nivara_api_nestjs.Domain.{portal, normal, opened, Ticket}
use nivara_api_nestjs.Realtime.Events.{first_response, of_breach, RealtimeEnvelope, RealtimeEvent}
use Prim.Native.String.{[], String}
use nivara_api_nestjs.Shared.{[], none, ◌∷◌, String, ℕ}
use nivara_api_nestjs.Principal.Context.{user, TenantContext}
use nivara_api_nestjs.Principal.{admin, agent, ContactPrincipal, StaffPrincipal}
use nivara_api_nestjs.Scheduler.Queue.{ready, ClaimedJob, Job}
use Prim.Native.Nat.{ℕ}
use nivara_api_nestjs.Tickets.Rows.{Db}

abbrev pub acme : String
acme = "0b8f1c1e-5f3a-4b7e-9c39-0d6a3f0c1a11"

abbrev pub globex : String
globex = "7d1a2b3c-4d5e-4f60-8a7b-9c0d1e2f3a4b"

abbrev pub ticket_id : String
ticket_id = "3c9d7a52-1111-4222-8333-444455556666"

abbrev pub agent_principal : StaffPrincipal
agent_principal = record { tenant_id = acme; user_id = "u-1"; role = agent }

abbrev pub admin_principal : StaffPrincipal
admin_principal = record { tenant_id = acme; user_id = "u-2"; role = admin }

abbrev pub contact_principal : ContactPrincipal
contact_principal = record { tenant_id = acme; contact_id = "c-1" }

abbrev pub acme_user : TenantContext
acme_user = record { tenant_id = acme; actor = user "u-1" }

abbrev pub open_ticket : Ticket
open_ticket = record {
  id = ticket_id;
  tenant_id = acme;
  subject = "printer";
  contact_id = "c-1";
  assignee_id = none;
  state = opened;
  priority = normal;
  source = portal;
  spawned_from_ticket_id = none;
  root_ticket_id = none;
  slack_channel_id = none;
  slack_thread_ts = none;
  created_at = 10;
  updated_at = 10;
  first_response_at = none;
  sla_paused_ms = 0;
  sla_pause_started_at = none;
  first_response_breached_at = none;
  resolution_breached_at = none;
  last_activity_at = 10;
}

abbrev pub desk : Db
desk = record {
  tickets = open_ticket ∷ [];
  messages = [];
  audit = [];
  contacts = (acme, "c-1") ∷ [];
  users = (acme, "u-1") ∷ [];
}

abbrev pub ready_job : Job
ready_job = record {
  id = "j-1";
  tenant_id = acme;
  kind = "slack.post";
  payload = "{}";
  run_after = 100;
  attempts = 0;
  max_attempts = 5;
  status = ready;
  locked_at = none;
  last_error = none;
  updated_at = 100;
}

abbrev pub first_attempt : ClaimedJob
first_attempt = record {
  id = "j-1";
  tenant_id = acme;
  kind = "slack.post";
  payload = "{}";
  attempts = 1;
  max_attempts = 5;
}

abbrev pub event : ℕ → RealtimeEvent → RealtimeEnvelope
event n e = record {
  event = e;
  room = "t:x:agents";
  seq = n;
  ts = 5;
  payload = of_breach (record { ticket_id = ticket_id; timer = first_response; breached_at = 5 });
}
