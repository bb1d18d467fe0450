-- ===== src/Tests/Sweeps.antt =====
-- Runs of the dwell sweep of src/sla.
use nivara_api_nestjs.Tickets.StateMachine.{
  row_of, enforce_transition, is_rerouted, is_relinked, before_update,
}
use nivara_api_nestjs.Errors.{throw, Result, ok}
use nivara_api_nestjs.Shared.{List, refl, some, arith, ◌≡◌, [], ◌∷◌}
use nivara_api_nestjs.Realtime.Events.{resolution, first_response, SlaBreachSnapshot}
use nivara_api_nestjs.Sla.Latching.{latch_tenant_announces}
use nivara_api_nestjs.Sla.Breach.{
  latch_tenant, Latched, find_target, due_resolution, due_first_response, BreachEntry, SlaTarget,
  latching,
}
use nivara_api_nestjs.Domain.{normal, Ticket, pending}
use nivara_api_nestjs.Tests.Samples.{ticket_id, open_ticket, acme}
use nivara_api_nestjs.Sla.Dwell.{Swept, sweep}
use nivara_api_nestjs.Sla.Moves.{Dwelt, Pairwise}
use nivara_api_nestjs.Sla.Settles.{sweep_settles}

abbrev silent_ticket : Ticket
silent_ticket = record open_ticket { state = pending }

sweep_settles_example :
    (r : Swept) × (sweep acme 604800011 20 (silent_ticket ∷ []) ≡ ok r)
    × Pairwise (Dwelt acme 604800011 20) (silent_ticket ∷ []) r.tickets
sweep_settles_example = sweep_settles acme 604800011 20 (silent_ticket ∷ []) omega arith

abbrev strict_target : SlaTarget
strict_target = record {
  tenant_id = acme;
  priority = normal;
  first_response_ms = 500;
  resolution_ms = 5000;
}

abbrev late_breach : SlaBreachSnapshot
late_breach = record { ticket_id = ticket_id; timer = first_response; breached_at = 1000 }

abbrev late_entry : BreachEntry
late_entry = record {
  tenant_id = acme;
  ticket_id = ticket_id;
  kind = first_response;
  created_at = 1001;
}

latch_tenant_announces_example :
    (r : Latched) × (latch_tenant (strict_target ∷ []) acme 1000 1001 (open_ticket ∷ []) ≡ ok r)
    × (r.tickets ≡ record open_ticket { first_response_breached_at = some 1000 } ∷ [])
    × (r.entries ≡ [])
    × (r.breaches ≡ late_breach ∷ [])
    × (r.audit ≡ late_entry ∷ [])
unfolding latching due_first_response due_resolution find_target
latch_tenant_announces_example =
    latch_tenant_announces (strict_target ∷ []) acme 1000 1001 (open_ticket ∷ []) ((refl, refl), tt)

-- A ticket whose first response another run latched at the same instant.
abbrev raced_ticket : Ticket
raced_ticket = record open_ticket { first_response_breached_at = some 1000 }

abbrev loose_target : SlaTarget
loose_target = record strict_target { resolution_ms = 700 }

abbrev late_resolution : SlaBreachSnapshot
late_resolution = record { ticket_id = ticket_id; timer = resolution; breached_at = 1000 }

abbrev breaches_of : Result Latched → List SlaBreachSnapshot
breaches_of (throw e) = []
breaches_of (ok r) = r.breaches

announced_again :
    breaches_of (latch_tenant (loose_target ∷ []) acme 1000 1001 (raced_ticket ∷ []))
    ≡ late_breach ∷ late_resolution ∷ []
unfolding latch_tenant find_target due_first_response due_resolution before_update is_relinked
    is_rerouted enforce_transition row_of
announced_again = refl
