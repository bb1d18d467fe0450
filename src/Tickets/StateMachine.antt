-- ===== src/Tickets/StateMachine.antt =====
-- The two halves of the ticket's state machine: who may move a ticket
-- (src/tickets/state-machine.ts), and which moves, edits and births the database's triggers allow
-- (prisma/migrations, ticket_enforce_transition and ticket_enforce_linkage in their last version).
use nivara_api_nestjs.Domain.{
  urgent, closed, high, on_hold, resolved, normal, pending, same_priority, same_state, low, opened,
  TicketPriority, TicketState, Ticket,
}
use nivara_api_nestjs.Shared.{
  ◌&&◌, [], str_eq, ◌++◌, false, none, ◌+◌, ◌-◌, ◌||◌, ◌∷◌, List, if◌then◌else◌, not, some, true,
  Bool, Option, String, includes, ℕ,
}
use Prim.Native.String.{[], String}
use nivara_api_nestjs.Principal.{Permission}
use nivara_api_nestjs.Principal.Context.{Actor}
use Prim.Native.Nat.{ℕ}

unfoldable pub can_transition : TicketState → TicketState → List Permission → Bool
unfolding includes
can_transition from closed permissions = includes permissions "ticket:close"
can_transition from _ permissions = true

-- ticket_transition_is_legal
unfoldable pub is_legal : TicketState → TicketState → Bool
is_legal opened pending = true
is_legal opened on_hold = true
is_legal pending opened = true
is_legal pending on_hold = true
is_legal on_hold opened = true
is_legal on_hold pending = true
is_legal opened resolved = true
is_legal pending resolved = true
is_legal on_hold resolved = true
is_legal resolved opened = true
is_legal resolved closed = true
is_legal _ _ = false

-- `a IS NOT DISTINCT FROM b`
abbrev pub same_text : Option String → Option String → Bool
same_text none none = true
same_text (some a) (some b) = str_eq a b
same_text _ _ = false

-- `COALESCE`-like: a timestamp that is set stays.
abbrev pub keep_set : Option ℕ → Option ℕ → Option ℕ
keep_set none new = new
keep_set (some t) new = some t

-- A state in which the resolution clock stands still.
unfoldable pub is_pausing : TicketState → Bool
is_pausing pending = true
is_pausing resolved = true
is_pausing closed = true
is_pausing _ = false

pub data AuditAction : Type 0 where
  ticket_created ticket_transitioned ticket_assigned ticket_priority_changed : AuditAction

unfoldable pub state_text : TicketState → String
state_text opened = "open"
state_text pending = "pending"
state_text on_hold = "on_hold"
state_text resolved = "resolved"
state_text closed = "closed"

unfoldable pub priority_text : TicketPriority → String
priority_text low = "low"
priority_text normal = "normal"
priority_text high = "high"
priority_text urgent = "urgent"

pub record AuditEntry : Type 0 where
  pub tenant_id : String
  pub action : AuditAction
  pub actor : Actor
  pub target_id : String
  pub ticket_id : Option String
  pub from_value : Option String
  pub to_value : Option String
  pub created_at : ℕ

-- A BEFORE UPDATE trigger refuses by an SQLSTATE, or gives the row to be written and the audit
-- entries that it inserted.
pub data Verdict : Type 0 where
  refused : String → Verdict
  allowed : Ticket → List AuditEntry → Verdict

entry_for : ℕ → Actor → Ticket → AuditAction → Option String → Option String → AuditEntry
entry_for now actor t action from to = record {
  tenant_id = t.tenant_id;
  action = action;
  actor = actor;
  target_id = t.id;
  ticket_id = some t.id;
  from_value = from;
  to_value = to;
  created_at = now;
}

entry_if : Bool → AuditEntry → List AuditEntry
entry_if true e = e ∷ []
entry_if false e = []

-- The first block: latched timestamps cannot be unset or moved.
unfoldable pub latched : Ticket → Ticket → Ticket
latched old new = record new {
  first_response_at = keep_set old.first_response_at new.first_response_at;
  first_response_breached_at =
      keep_set old.first_response_breached_at new.first_response_breached_at;
  resolution_breached_at = keep_set old.resolution_breached_at new.resolution_breached_at;
}

-- The pause bookkeeping of a change of state.
repaused_ms : ℕ → Option ℕ → ℕ → ℕ → ℕ
repaused_ms now none old new = new
repaused_ms now (some started) old new = old + (now - started)

repause_started : ℕ → Option ℕ → TicketState → Option ℕ → Option ℕ
unfolding is_pausing
repause_started now none to new = if is_pausing to then some now else new
repause_started now (some started) to new = if is_pausing to then some now else none

moved : ℕ → Ticket → Ticket → Ticket
unfolding repaused_ms repause_started
moved now old new = record new {
  sla_paused_ms = repaused_ms now old.sla_pause_started_at old.sla_paused_ms new.sla_paused_ms;
  sla_pause_started_at =
      repause_started now old.sla_pause_started_at new.state new.sla_pause_started_at;
}

touched : ℕ → Ticket → Ticket
touched now t = record t { last_activity_at = now }

unfoldable pub is_edit : Ticket → Ticket → Bool
is_edit old new =
    not (same_priority new.priority old.priority) || not (same_text new.assignee_id old.assignee_id)

-- The row as the trigger leaves it.
unfoldable pub row_of : ℕ → Ticket → Ticket → Ticket
unfolding latched moved touched is_edit
row_of now old new =
    let kept = latched old new in
    let stays = same_state new.state old.state in
    let row = if stays then kept else moved now old kept in
    if not stays || is_edit old new then touched now row else row

-- The audit entries that the trigger inserts.
unfoldable pub entries_of : ℕ → Actor → Ticket → Ticket → List AuditEntry
unfolding entry_for entry_if state_text priority_text
entries_of now actor old new =
    entry_if (not (same_state new.state old.state)) (
      entry_for now actor new ticket_transitioned (some (state_text old.state))
        (some (state_text new.state)))
    ++ (entry_if (not (same_text new.assignee_id old.assignee_id))
          (entry_for now actor new ticket_assigned old.assignee_id new.assignee_id)
        ++ entry_if (not (same_priority new.priority old.priority)) (
            entry_for now actor new ticket_priority_changed (some (priority_text old.priority))
              (some (priority_text new.priority))))

unfoldable pub enforce_transition : ℕ → Actor → Ticket → Ticket → Verdict
enforce_transition now actor old new =
    if same_state old.state closed && is_edit old new
    then refused "TK002"
    else if not (same_state new.state old.state) && not (is_legal old.state new.state)
    then refused "TK001"
    else allowed (row_of now old new) (entries_of now actor old new)

unfoldable pub is_relinked : Ticket → Ticket → Bool
is_relinked old new =
    not (same_text new.spawned_from_ticket_id old.spawned_from_ticket_id)
    || not (same_text new.root_ticket_id old.root_ticket_id)

unfoldable pub is_rerouted : Ticket → Ticket → Bool
is_rerouted old new =
    not (same_text new.slack_channel_id old.slack_channel_id)
    || not (same_text new.slack_thread_ts old.slack_thread_ts)

-- The BEFORE UPDATE triggers, which run in the order of their names.
unfoldable pub before_update : ℕ → Actor → Ticket → Ticket → Verdict
before_update now actor old new =
    if is_relinked old new
    then refused "TK004"
    else if is_rerouted old new
    then refused "TK005"
    else enforce_transition now actor old new
