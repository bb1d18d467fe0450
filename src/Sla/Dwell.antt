-- ===== src/Sla/Dwell.antt =====
-- src/sla/dwell.sweep.ts. `now` is the instant that the sweep is
-- given and `clock` the database's.
use nivara_api_nestjs.Tenancy.{for_each_tenant}
use nivara_api_nestjs.Tickets.Rows.{Db, sql_state}
use nivara_api_nestjs.Shared.{
  ◌+◌, ltb, none, ◌++◌, ◌&&◌, not, str_eq, Bool, [], if◌then◌else◌, ◌∷◌, List, String, ℕ,
}
use nivara_api_nestjs.Errors.{no_cause, driver, throw, ok, ◌>>=◌, Result}
use nivara_api_nestjs.Domain.{same_state, closed, resolved, pending, TicketState, Ticket}
use nivara_api_nestjs.Tickets.StateMachine.{
  allowed, before_update, refused, AuditEntry, can_transition, Verdict,
}
use nivara_api_nestjs.Principal.Context.{system}
use Prim.Native.String.{[], String}
use nivara_api_nestjs.Realtime.Service.{updated, Announcement}
use nivara_api_nestjs.Principal.{Permission}
use Prim.Native.Nat.{ℕ}

abbrev pub scheduler_permissions : List Permission
scheduler_permissions = "ticket:transition" ∷ "ticket:close" ∷ []

-- `ticket_dwell_window()`, 7 days in milliseconds
abbrev pub ticket_dwell_window : ℕ
ticket_dwell_window = 604800000

unfoldable pub is_due : (tenant : String) → TicketState → ℕ → Ticket → Bool
is_due tenant from now t =
    str_eq t.tenant_id tenant
    && same_state t.state from
    && ltb (t.last_activity_at + ticket_dwell_window) now

-- The table, the audit entries of the triggers, and the tickets that were moved.
pub record Swept : Type 0 where
  pub tickets : List Ticket
  pub entries : List AuditEntry
  pub moved : List Ticket

abbrev pub left_alone : Ticket → Swept → Swept
left_alone t rest = record rest { tickets = t ∷ rest.tickets }

unfoldable pub moved_by : Verdict → Swept → Result Swept
moved_by (refused code) rest = throw (sql_state code)
moved_by (allowed row es) rest = ok (record {
  tickets = row ∷ rest.tickets;
  entries = es ++ rest.entries;
  moved = row ∷ rest.moved;
})

module _ (tenant : String) (now clock : ℕ) where
  unfoldable pub settle_rows : (from to : TicketState) → List Ticket → Result Swept
  unfolding is_due moved_by
  settle_rows from to [] = ok (record { tickets = []; entries = []; moved = [] })
  settle_rows from to (t ∷ ts) = settle_rows from to ts >>= λ rest.
      if is_due tenant from now t
      then moved_by (before_update clock system t (record t { state = to })) rest
      else ok (left_alone t rest)

  unfoldable pub settle : (from to : TicketState) → List Ticket → Result Swept
  unfolding settle_rows can_transition
  settle from to ts =
      if not (can_transition from to scheduler_permissions)
      then throw (driver none no_cause)
      else settle_rows from to ts

  -- `TIMERS` in order
  unfoldable pub sweep : List Ticket → Result Swept
  unfolding settle
  sweep ts = settle pending resolved ts >>= λ first.
      settle resolved closed first.tickets >>= λ second. ok (record {
        tickets = second.tickets;
        entries = first.entries ++ second.entries;
        moved = first.moved ++ second.moved;
      })

abbrev pub updates : List Ticket → List Announcement
updates [] = []
updates (t ∷ ts) = updated t ∷ updates ts

-- One transaction of the run.
unfoldable pub dwell_tenant : (now clock : ℕ) → String → Db → Result (Db × List Ticket)
unfolding sweep
dwell_tenant now clock tenant db = sweep tenant now clock db.tickets >>= λ swept.
    ok (record db { tickets = swept.tickets; audit = db.audit ++ swept.entries }, swept.moved)

-- The run over the tenants, each at its clock, and what is announced after it.
unfoldable pub run :
    (now : ℕ) → (clock : String → ℕ) → List String → Db → Db × Result (List Announcement)
unfolding dwell_tenant for_each_tenant
run now clock tenants db =
    let (db', settled) =
      for_each_tenant (λ tenant. dwell_tenant now (clock tenant) tenant) tenants db in
    (db', settled >>= λ moved. ok (updates moved))
