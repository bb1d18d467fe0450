-- ===== src/Tests/Desk.antt =====
-- Tickets: a transition and a history.
use nivara_api_nestjs.Tickets.Failures.{transition_in_fails, Failed, NoSuchTicket}
use nivara_api_nestjs.Errors.{throw, fail, ok, conflict, forbidden}
use nivara_api_nestjs.Shared.{◌⊎◌, is_uuid, refl, ◌≡◌, [], some, ◌∷◌}
use nivara_api_nestjs.Tests.Samples.{
  admin_principal, ticket_id, agent_principal, acme_user, acme, desk, open_ticket,
}
use nivara_api_nestjs.Domain.{closed, pending, Ticket}
use nivara_api_nestjs.Tickets.TicketService.{
  rethrow_ticket_refusal, settle, with_tenant, transition, transition_in,
}
use nivara_api_nestjs.Authz.Permissions.{permissions_for}
use nivara_api_nestjs.Realtime.Service.{updated}
use nivara_api_nestjs.Tickets.StateMachine.{
  entries_of, row_of, is_legal, enforce_transition, is_rerouted, is_relinked, before_update,
  can_transition, ticket_transitioned, AuditEntry,
}
use nivara_api_nestjs.Shared.Uuid.{is_uuid}
use nivara_api_nestjs.Principal.Context.{actor_settings, context_settings, user}
use nivara_api_nestjs.Tickets.Rows.{
  written, update_many, is_occupied, is_visible, find_ticket, has_id, Db,
}
use nivara_api_nestjs.Principal.{actor_for, tenant_context_for, staff}
use nivara_api_nestjs.Tickets.Histories.{
  still, transitions, Steps-ChainsValid, Steps-Kept, then_step, Steps,
}
use nivara_api_nestjs.Tickets.Chains.{ChainsValid, Kept}
use nivara_api_nestjs.Tickets.Transitions.{transition_in_sound, Transitioned}

abbrev nothing_else : Db → Db
nothing_else db = db

abbrev pending_ticket : Ticket
pending_ticket = record open_ticket {
  state = pending;
  updated_at = 20;
  sla_pause_started_at = some 20;
  last_activity_at = 20;
}

abbrev moved_entry : AuditEntry
moved_entry = record {
  tenant_id = acme;
  action = ticket_transitioned;
  actor = user "u-1";
  target_id = ticket_id;
  ticket_id = some ticket_id;
  from_value = some "open";
  to_value = some "pending";
  created_at = 20;
}

abbrev desk_after : Db
desk_after = record desk { tickets = pending_ticket ∷ []; audit = moved_entry ∷ [] }

moves_on :
    transition_in 20 nothing_else acme_user (staff agent_principal) ticket_id pending desk
    ≡ ok (desk_after, pending_ticket)
unfolding transition_in find_ticket is_visible can_transition update_many written before_update
    is_relinked is_rerouted enforce_transition is_legal settle row_of entries_of
moves_on = refl

transition_in_sound_example :
    Transitioned 20 acme_user
      (staff agent_principal)
      ticket_id
      pending
      desk
      (nothing_else desk)
      desk_after
      pending_ticket
transition_in_sound_example =
    transition_in_sound 20 nothing_else acme_user (staff agent_principal) ticket_id pending desk
      desk_after pending_ticket moves_on

commits :
    transition 20 nothing_else (staff agent_principal) ticket_id pending desk
    ≡ ok (desk_after, pending_ticket, updated pending_ticket ∷ [])
unfolding transition with_tenant tenant_context_for actor_for context_settings actor_settings
    is_uuid transition_in find_ticket is_visible can_transition update_many written before_update
    is_relinked is_rerouted enforce_transition is_legal settle row_of entries_of
commits = refl

history : Steps desk desk_after
history =
    then_step {db = desk} {db' = desk_after}
      (transitions 20 nothing_else (staff agent_principal) ticket_id pending {db = desk} commits)
      still

desk-ChainsValid : ChainsValid desk.tickets
unfolding has_id is_occupied
desk-ChainsValid = record { keyed = (refl, tt); one_live = (λ l. refl, tt) }

Steps-ChainsValid_example : ChainsValid desk_after.tickets
Steps-ChainsValid_example = Steps-ChainsValid history desk-ChainsValid

Steps-Kept_example : Kept desk.tickets desk_after.tickets
Steps-Kept_example = Steps-Kept history desk-ChainsValid

-- An agent may not close.
may_not_close :
    transition_in 20 nothing_else acme_user (staff agent_principal) ticket_id closed desk
    ≡ throw (fail forbidden)
unfolding transition_in find_ticket is_visible can_transition permissions_for
may_not_close = refl

transition_in_fails_example :
    NoSuchTicket acme_user ticket_id desk (fail forbidden)
    ⊎ Failed acme_user (staff agent_principal) ticket_id closed desk (fail forbidden)
transition_in_fails_example =
    transition_in_fails 20 nothing_else acme_user (staff agent_principal) ticket_id closed desk
      (fail forbidden) may_not_close

-- An admin may, but the triggers refuse the move from open to closed.
not_yet :
    transition_in 20 nothing_else acme_user (staff admin_principal) ticket_id closed desk
    ≡ throw (fail conflict)
unfolding transition_in find_ticket is_visible can_transition permissions_for update_many written
    before_update is_relinked is_rerouted enforce_transition is_legal rethrow_ticket_refusal
not_yet = refl
