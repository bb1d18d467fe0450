-- ===== src/Sla/Breach.antt =====
-- src/sla/sla-breach.sweep.ts with latched-timers.ts, over
-- sla_target and the functions of prisma/migrations that measure a clock.
use nivara_api_nestjs.Tenancy.{for_each_tenant}
use nivara_api_nestjs.Tickets.Rows.{Db, sql_state}
use nivara_api_nestjs.Realtime.Service.{breached, Announcement}
use nivara_api_nestjs.Domain.{closed, resolved, same_state, same_priority, TicketPriority, Ticket}
use nivara_api_nestjs.Tickets.StateMachine.{allowed, before_update, refused, AuditEntry, Verdict}
use nivara_api_nestjs.Principal.Context.{system}
use nivara_api_nestjs.Errors.{throw, ok, ◌>>=◌, Result}
use nivara_api_nestjs.Realtime.Events.{resolution, first_response, SlaBreachSnapshot, SlaTimer}
use nivara_api_nestjs.Shared.{
  ltb, not, ◌==◌, ◌||◌, [], none, some, ◌&&◌, ◌++◌, ◌+◌, false, if◌then◌else◌, str_eq, true, ◌-◌,
  ◌∷◌, Bool, List, Option, String, ℕ,
}
use Prim.Native.String.{[], String}
use mathlib.Core.List.{[]}
use Prim.Native.Nat.{ℕ}

pub record SlaTarget : Type 0 where
  pub tenant_id : String
  pub priority : TicketPriority
  pub first_response_ms : ℕ
  pub resolution_ms : ℕ

pub record LatchedRow : Type 0 where
  pub id : String
  pub first_response_breached_at : Option ℕ
  pub resolution_breached_at : Option ℕ

-- An audit entry of the sweep, whose actor is the system.
pub record BreachEntry : Type 0 where
  pub tenant_id : String
  pub ticket_id : String
  pub kind : SlaTimer
  pub created_at : ℕ

unfoldable pub wall_elapsed_ms : ℕ → ℕ → ℕ
wall_elapsed_ms created_at now = now - created_at

-- The difference of the source, which is signed, with its negative terms on one side.
unfoldable pub active_elapsed_ms : ℕ → ℕ → Option ℕ → ℕ → ℕ
active_elapsed_ms created_at paused none now = now - (created_at + paused)
active_elapsed_ms created_at paused (some started) now =
    (now + started) - (created_at + paused + now)

unfoldable pub find_target : String → TicketPriority → List SlaTarget → Option SlaTarget
find_target tenant priority [] = none
find_target tenant priority (s ∷ ss) =
    let rest = find_target tenant priority ss in
    if str_eq s.tenant_id tenant && same_priority s.priority priority then some s else rest

abbrev pub is_unset : Option ℕ → Bool
is_unset none = true
is_unset (some _) = false

abbrev pub is_at : Option ℕ → ℕ → Bool
is_at none now = false
is_at (some t) now = t == now

unfoldable pub due_first_response : ℕ → Option SlaTarget → Ticket → Bool
unfolding wall_elapsed_ms
due_first_response now none t = false
due_first_response now (some s) t =
    is_unset t.first_response_at
    && is_unset t.first_response_breached_at
    && ltb s.first_response_ms (wall_elapsed_ms t.created_at now)

unfoldable pub due_resolution : ℕ → Option SlaTarget → Ticket → Bool
unfolding active_elapsed_ms
due_resolution now none t = false
due_resolution now (some s) t =
    is_unset t.resolution_breached_at
    && not (same_state t.state resolved || same_state t.state closed)
    && ltb s.resolution_ms
        (active_elapsed_ms t.created_at t.sla_paused_ms t.sla_pause_started_at now)

unfoldable pub latching : ℕ → Option SlaTarget → Ticket → Ticket
unfolding due_first_response due_resolution
latching now s t = record t {
  first_response_breached_at =
      if due_first_response now s t then some now else t.first_response_breached_at;
  resolution_breached_at = if due_resolution now s t then some now else t.resolution_breached_at;
}

abbrev pub timer_if : Bool → SlaTimer → List SlaTimer
timer_if true timer = timer ∷ []
timer_if false timer = []

unfoldable pub latched_timers : LatchedRow → ℕ → List SlaTimer
latched_timers row now =
    timer_if (is_at row.first_response_breached_at now) first_response
    ++ timer_if (is_at row.resolution_breached_at now) resolution

-- The table, what the triggers audited, and the rows that the statement returns.
pub record Returned : Type 0 where
  pub tickets : List Ticket
  pub entries : List AuditEntry
  pub rows : List LatchedRow

abbrev pub kept : Ticket → Returned → Returned
kept t rest = record rest { tickets = t ∷ rest.tickets }

abbrev pub returned : Ticket → LatchedRow
returned t = record {
  id = t.id;
  first_response_breached_at = t.first_response_breached_at;
  resolution_breached_at = t.resolution_breached_at;
}

unfoldable pub latched_by : Verdict → Returned → Result Returned
latched_by (refused code) rest = throw (sql_state code)
latched_by (allowed row es) rest = ok (record {
  tickets = row ∷ rest.tickets;
  entries = es ++ rest.entries;
  rows = returned row ∷ rest.rows;
})

abbrev pub breaches_at : ℕ → String → List SlaTimer → List SlaBreachSnapshot
breaches_at now id [] = []
breaches_at now id (timer ∷ timers) =
    record { ticket_id = id; timer = timer; breached_at = now } ∷ breaches_at now id timers

unfoldable pub breaches_in : ℕ → List LatchedRow → List SlaBreachSnapshot
unfolding latched_timers
breaches_in now [] = []
breaches_in now (row ∷ rows) =
    breaches_at now row.id (latched_timers row now) ++ breaches_in now rows

abbrev pub audit_of : ℕ → String → List SlaBreachSnapshot → List BreachEntry
audit_of clock tenant [] = []
audit_of clock tenant (b ∷ bs) =
    record { tenant_id = tenant; ticket_id = b.ticket_id; kind = b.timer; created_at = clock }
    ∷ audit_of clock tenant bs

pub record Latched : Type 0 where
  pub tickets : List Ticket
  pub entries : List AuditEntry
  pub audit : List BreachEntry
  pub breaches : List SlaBreachSnapshot

module _ (targets : List SlaTarget) (tenant : String) (now clock : ℕ) where
  abbrev pub target_of : Ticket → Option SlaTarget
  unfolding find_target
  target_of t = find_target t.tenant_id t.priority targets

  unfoldable pub is_breached : Ticket → Bool
  unfolding due_first_response due_resolution
  is_breached t =
      str_eq t.tenant_id tenant
      && (is_unset t.first_response_breached_at || is_unset t.resolution_breached_at)
      && (due_first_response now (target_of t) t || due_resolution now (target_of t) t)

  unfoldable pub latch_rows : List Ticket → Result Returned
  unfolding is_breached latching latched_by
  latch_rows [] = ok (record { tickets = []; entries = []; rows = [] })
  latch_rows (t ∷ ts) = latch_rows ts >>= λ rest.
      if is_breached t
      then latched_by (before_update clock system t (latching now (target_of t) t)) rest
      else ok (kept t rest)

  unfoldable pub latch_tenant : List Ticket → Result Latched
  unfolding latch_rows breaches_in
  latch_tenant ts = latch_rows ts >>= λ updated. ok (record {
    tickets = updated.tickets;
    entries = updated.entries;
    audit = audit_of clock tenant (breaches_in now updated.rows);
    breaches = breaches_in now updated.rows;
  })

-- A breach with its tenant.
pub record Breach : Type 0 where
  pub tenant_id : String
  pub breach : SlaBreachSnapshot

abbrev pub breaches_of_tenant : String → List SlaBreachSnapshot → List Breach
breaches_of_tenant tenant [] = []
breaches_of_tenant tenant (b ∷ bs) =
    record { tenant_id = tenant; breach = b } ∷ breaches_of_tenant tenant bs

abbrev pub announcements : List Breach → List Announcement
announcements [] = []
announcements (b ∷ bs) = breached b.tenant_id b.breach ∷ announcements bs

-- The tables, with the audit entries of the sweep.
pub record BreachDb : Type 0 where
  pub db : Db
  pub breach_audit : List BreachEntry

-- One transaction of the run.
unfoldable pub breach_tenant :
    List SlaTarget → (now clock : ℕ) → String → BreachDb → Result (BreachDb × List Breach)
unfolding latch_tenant
breach_tenant targets now clock tenant s =
    latch_tenant targets tenant now clock s.db.tickets >>= λ r. ok (
      record {
        db = record s.db { tickets = r.tickets; audit = s.db.audit ++ r.entries };
        breach_audit = s.breach_audit ++ r.audit;
      },
      breaches_of_tenant tenant r.breaches,
    )

-- The run over the tenants, each at its clock, and what is announced after it.
unfoldable pub run :
    List SlaTarget
    → (now : ℕ) → (clock : String → ℕ) → List String
    → BreachDb
    → BreachDb × Result (List Announcement)
unfolding breach_tenant for_each_tenant
run targets now clock tenants s =
    let (s', latched_all) =
      for_each_tenant (λ tenant. breach_tenant targets now (clock tenant) tenant) tenants s in
    (s', latched_all >>= λ breaches. ok (announcements breaches))
