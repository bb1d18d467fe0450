-- ===== src/Tickets/TicketService.antt =====
-- src/tickets/ticket.service.ts. A method that opens a transaction gives the tables after it, its
-- result and what it announces; one that throws commits nothing. The methods named `…In` run in a
-- transaction that the caller owns.
use nivara_api_nestjs.Principal.Context.{ContextSettings, context_settings, TenantContext}
use Prim.Native.String.{[], String}
use nivara_api_nestjs.Domain.{
  same_state, normal, opened, TicketPriority, TicketSource, TicketState, Ticket,
}
use nivara_api_nestjs.Shared.{
  [], zero, ◌∷◌, not, List, str_eq, true, Bool, if◌then◌else◌, none, some, Option, String, ℕ,
}
use nivara_api_nestjs.Errors.{
  forbidden, conflict, no_cause, not_found, primitive, catch_throw, cause_code, driver, fail, ok,
  throw, ◌>>=◌, Result, app, Cause, ErrorCode, Thrown, is_foreign_key_violation,
  is_unique_violation,
}
use Prim.Native.Nat.{suc, ℕ}
use nivara_api_nestjs.Realtime.Service.{Announcement, assigned, created, updated}
use nivara_api_nestjs.Tickets.Rows.{
  foreign_key_violation, record_audit, Db, find_ticket, has_row, insert_ticket, update_many,
}
use nivara_api_nestjs.Tickets.StateMachine.{ticket_created, AuditEntry, can_transition, state_text}
use nivara_api_nestjs.Authz.Permissions.{permissions_for}
use nivara_api_nestjs.Principal.{tenant_context_for, tenant_of, RequestPrincipal}

pub record CreateTicketInput : Type 0 where
  pub subject : String
  pub contact_id : String
  pub source : TicketSource
  pub spawned_from_ticket_id : Option String
  pub slack_route : Option (String × String)

abbrev pub Done : Type 0
Done = Db × Ticket × List Announcement

-- The transaction is armed with the settings, or the InvalidTenantContextError is thrown.
unfoldable pub armed {ℓ} : {A : Type ℓ} → Result A → Option ContextSettings → Result A
armed body none = throw (driver none no_cause)
armed body (some s) = body

unfoldable pub in_context {ℓ} :
    {A : Type ℓ} → (TenantContext → Result A) → Option TenantContext → Result A
unfolding armed
in_context work none = throw (driver none no_cause)
in_context work (some ctx) = armed (work ctx) (context_settings ctx)

-- `withTenant(tenantContextFor(principal), work)`
unfoldable pub with_tenant {ℓ} :
    {A : Type ℓ} → RequestPrincipal → (TenantContext → Result A) → Result A
unfolding in_context
with_tenant p work = in_context work (tenant_context_for p)

-- TICKET_REFUSALS
unfoldable pub refusal_code : String → Option ErrorCode
refusal_code s =
    if str_eq s "TK001"
    then some conflict
    else if str_eq s "TK002"
    then some conflict
    else if str_eq s "TK003"
    then some not_found
    else if str_eq s "TK004"
    then some conflict
    else if str_eq s "TK005"
    then some conflict
    else none

-- `ticketSqlstate`, with the code that the table gives it
refusal_of_cause : Cause → Option ErrorCode
unfolding refusal_code
refusal_of_cause no_cause = none
refusal_of_cause (cause_code none) = none
refusal_of_cause (cause_code (some s)) = refusal_code s

unfoldable pub ticket_refusal : Thrown → Option ErrorCode
unfolding refusal_of_cause
ticket_refusal (app e) = none
ticket_refusal (driver code cause) = refusal_of_cause cause
ticket_refusal primitive = none

abbrev or_rethrow : Thrown → Option ErrorCode → Thrown
or_rethrow e none = e
or_rethrow e (some code) = fail code

unfoldable pub rethrow_ticket_refusal : Thrown → Thrown
unfolding ticket_refusal
rethrow_ticket_refusal e = or_rethrow e (ticket_refusal e)

unfoldable pub rethrow_chain_conflict : Thrown → Thrown
unfolding is_unique_violation
rethrow_chain_conflict e = if is_unique_violation e then fail conflict else e

-- The handler that `createIn` gives to `catch`.
unfoldable pub rethrow_create : Thrown → Thrown
unfolding is_foreign_key_violation rethrow_ticket_refusal
rethrow_create e = if is_foreign_key_violation e then fail not_found else rethrow_ticket_refusal e

route_channel : Option (String × String) → Option String
route_channel none = none
route_channel (some (channel, thread)) = some channel

route_thread : Option (String × String) → Option String
route_thread none = none
route_thread (some (channel, thread)) = some thread

-- The row that `ticket.create` sends, with the columns' defaults.
unfoldable pub new_ticket : (id : String) (now : ℕ) → String → CreateTicketInput → Ticket
unfolding route_channel route_thread
new_ticket id now tenant_id input = record {
  id = id;
  tenant_id = tenant_id;
  subject = input.subject;
  contact_id = input.contact_id;
  assignee_id = none;
  state = opened;
  priority = normal;
  source = input.source;
  spawned_from_ticket_id = input.spawned_from_ticket_id;
  root_ticket_id = none;
  slack_channel_id = route_channel input.slack_route;
  slack_thread_ts = route_thread input.slack_route;
  created_at = now;
  updated_at = now;
  first_response_at = none;
  sla_paused_ms = 0;
  sla_pause_started_at = none;
  first_response_breached_at = none;
  resolution_breached_at = none;
  last_activity_at = now;
}

unfoldable pub created_entry : ℕ → TenantContext → Ticket → AuditEntry
unfolding state_text
created_entry now ctx t = record {
  tenant_id = ctx.tenant_id;
  action = ticket_created;
  actor = ctx.actor;
  target_id = t.id;
  ticket_id = some t.id;
  from_value = none;
  to_value = some (state_text t.state);
  created_at = now;
}

unfoldable pub create_in :
    (id : String) (now : ℕ)
    → TenantContext
    → RequestPrincipal
    → CreateTicketInput
    → Db
    → Result (Db × Ticket)
create_in id now ctx p input db =
    catch_throw (insert_ticket ctx db (new_ticket id now (tenant_of p) input)) rethrow_create
    >>= λ r. ok (record_audit (created_entry now ctx r.1) r.0, r.1)

unfoldable pub create :
    (id : String) (now : ℕ) → RequestPrincipal → CreateTicketInput → Db → Result Done
create id now p input db =
    with_tenant p (λ ctx. create_in id now ctx p input db) >>= λ r. ok (r.0, r.1, created r.1 ∷ [])

abbrev pub or_not_found {ℓ} : {A : Type ℓ} → Option A → Result A
or_not_found none = throw (fail not_found)
or_not_found (some a) = ok a

unfoldable pub find_one : RequestPrincipal → String → Db → Result Ticket
find_one p id db = with_tenant p (λ ctx. ok (find_ticket ctx id db)) >>= λ found. or_not_found found

unfoldable pub read_back : TenantContext → String → Db → Result (Db × Ticket)
read_back ctx id db = or_not_found (find_ticket ctx id db) >>= λ t. ok (db, t)

-- What follows an `updateMany`: nothing was written, or the row is read back.
unfoldable pub settle : ErrorCode → TenantContext → String → Db × ℕ → Result (Db × Ticket)
unfolding read_back
settle none_written ctx id (db, zero) = throw (fail none_written)
settle none_written ctx id (db, suc n) = read_back ctx id db

-- The read, and then the compare-and-set, between which other transactions may commit: `between`
-- is what they do to the tables.
unfoldable pub transition_in :
    (now : ℕ) (between : Db → Db)
    → TenantContext
    → RequestPrincipal
    → String
    → TicketState
    → Db
    → Result (Db × Ticket)
transition_in now between ctx p id to db = or_not_found (find_ticket ctx id db) >>= λ current.
    if not (can_transition current.state to (permissions_for p))
    then throw (fail forbidden)
    else catch_throw
        (update_many now ctx id (λ t. same_state t.state current.state)
          (λ t. record t { state = to; updated_at = now }) (between db))
        rethrow_ticket_refusal
      >>= settle conflict ctx id

unfoldable pub transition :
    (now : ℕ) (between : Db → Db) → RequestPrincipal → String → TicketState → Db → Result Done
transition now between p id to db =
    with_tenant p (λ ctx. transition_in now between ctx p id to db) >>= λ r.
    ok (r.0, r.1, updated r.1 ∷ [])

-- The shared edit path.
unfoldable pub update :
    (now : ℕ) → RequestPrincipal → String → (Ticket → Ticket) → Db → Result (Db × Ticket)
update now p id set db = with_tenant p (λ ctx.
    catch_throw (update_many now ctx id (λ t. true) set db) rethrow_ticket_refusal
    >>= settle not_found ctx id)

unfoldable pub set_priority :
    (now : ℕ) → RequestPrincipal → String → TicketPriority → Db → Result Done
set_priority now p id priority db =
    update now p id (λ t. record t { priority = priority; updated_at = now }) db >>= λ r.
    ok (r.0, r.1, updated r.1 ∷ [])

-- The foreign key from "assignee_id" to the tenant's users.
assignable : Db → String → Option String → Bool
unfolding has_row
assignable db tenant none = true
assignable db tenant (some user) = has_row tenant user db.users

unfoldable pub rethrow_assignee : Thrown → Thrown
unfolding is_foreign_key_violation
rethrow_assignee e = if is_foreign_key_violation e then fail not_found else e

unfoldable pub check_assignee : Option String → Db × Ticket → Result (Db × Ticket)
unfolding assignable
check_assignee assignee (db, t) =
    if assignable db t.tenant_id assignee then ok (db, t) else throw foreign_key_violation

unfoldable pub set_assignee :
    (now : ℕ) → RequestPrincipal → String → Option String → Db → Result Done
set_assignee now p id assignee db =
    catch_throw
      (update now p id (λ t. record t { assignee_id = assignee; updated_at = now }) db
        >>= check_assignee assignee)
      rethrow_assignee
    >>= λ r. ok (r.0, r.1, assigned r.1 ∷ [])
