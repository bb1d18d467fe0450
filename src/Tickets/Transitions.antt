-- ===== src/Tickets/Transitions.antt =====
-- What a successful `transitionIn` of src/tickets/ticket.service.ts has done.
use nivara_api_nestjs.Tickets.Writes.{
  catch_throw-eq-ok, update_many-Writes, or_not_found-eq-ok, settle-eq-ok, Writes-find, Writes,
  bind-eq-ok, wrote,
}
use nivara_api_nestjs.Tickets.TicketService.{
  rethrow_ticket_refusal, transition_in, or_not_found, settle,
}
use nivara_api_nestjs.Tickets.Rows.{find_ticket, update_many, Db}
use nivara_api_nestjs.Principal.Context.{TenantContext}
use nivara_api_nestjs.Errors.{conflict, ok, catch_throw}
use nivara_api_nestjs.Shared.{◌⊎◌, inr, inl, Bool-cases, true, refl, some, ◌≡◌, String, ℕ}
use nivara_api_nestjs.Tickets.StateMachine.{entries_of, is_legal, can_transition}
use nivara_api_nestjs.Tickets.Triggers.{
  same_state-eq, before_update-eq-allowed, before_update-Allows,
}
use nivara_api_nestjs.Domain.{opened, closed, same_state, TicketState, Ticket}
use nivara_api_nestjs.Authz.Permissions.{permissions_for, may}
use nivara_api_nestjs.Principal.{RequestPrincipal}
use Prim.Native.Nat.{ℕ}

-- A transition that succeeded: `current` is what was read, `old` the row that the compare-and-set
-- met in the tables at that moment, and `t` the row that was written and read back.
pub record Transitioned (now : ℕ) (ctx : TenantContext) (p : RequestPrincipal) (id : String)
    (to : TicketState) (read at db' : Db) (t : Ticket) : Type 0 where
  pub current : Ticket
  pub old : Ticket
  pub was_read : find_ticket ctx id read ≡ some current
  pub was_there : find_ticket ctx id at ≡ some old
  pub unmoved : old.state ≡ current.state
  pub legal : (old.state ≡ to) ⊎ (is_legal old.state to ≡ true)
  pub permitted : to ≡ closed → may p "ticket:close" ≡ true
  pub state : t.state ≡ to
  pub untouched : (t.priority ≡ old.priority) × (t.assignee_id ≡ old.assignee_id)
  pub tables :
      db'
      ≡ wrote at id t (entries_of now ctx.actor old (record old { state = to; updated_at = now }))
  pub reads_back : find_ticket ctx id db' ≡ some t

can_transition-may :
    (p : RequestPrincipal) (from to : TicketState)
    → can_transition from to (permissions_for p) ≡ true
    → to ≡ closed
    → may p "ticket:close" ≡ true
unfolding can_transition may
can_transition-may p from opened e c = cc
can_transition-may p from closed e c = e
can_transition-may p from _ e c = cc

-- The statement that a transition that succeeded was carried out by.
pub record Guarded (now : ℕ) (ctx : TenantContext) (p : RequestPrincipal) (id : String)
    (to : TicketState) (read at db' : Db) (t : Ticket) : Type 0 where
  pub current : Ticket
  pub was_read : find_ticket ctx id read ≡ some current
  pub granted : can_transition current.state to (permissions_for p) ≡ true
  pub writes :
      Writes now ctx id
        (λ x. same_state x.state current.state)
        (λ x. record x { state = to; updated_at = now })
        at
        db'
  pub found : find_ticket ctx id db' ≡ some t

pub transition_in-Writes :
    (now : ℕ) (between : Db → Db) (ctx : TenantContext) (p : RequestPrincipal) (id : String)
    (to : TicketState) (db db' : Db) (t : Ticket)
    → transition_in now between ctx p id to db ≡ ok (db', t)
    → Guarded now ctx p id to db (between db) db' t
unfolding transition_in
transition_in-Writes now between ctx p id to db db' t e =
    let (current, read, rest) = bind-eq-ok (or_not_found (find_ticket ctx id db)) _ e in
    elim (Bool-cases (can_transition current.state to (permissions_for p))) [
      | inr refused' ↦ let rest' = (rw refused' at rest) in cc
      | inl granted ↦
          let set = λ (x : Ticket). record x { state = to; updated_at = now } in
          let guard = λ (x : Ticket). same_state x.state current.state in
          let (r, wrote', back) =
            bind-eq-ok
              (catch_throw (update_many now ctx id guard set (between db)) rethrow_ticket_refusal)
              (settle conflict ctx id) (rw granted at rest) in
          let (n, same, found) = settle-eq-ok conflict ctx id r db' t back in
          record {
            current = current;
            was_read = or_not_found-eq-ok (find_ticket ctx id db) read;
            granted = granted;
            writes =
                update_many-Writes now ctx id guard set (between db) db' n
                  (rw same at (catch_throw-eq-ok _ _ wrote'));
            found = found;
          }
    ]

-- A successful `transitionIn` wrote a row that was still in the state by which the authority was
-- judged; the move is legal or none; a move to closed was made by a principal that may close;
-- priority and assignee are untouched, the audit log grew by exactly the entry of the change, and
-- the row that is returned is the one in the tables.
pub transition_in_sound :
    (now : ℕ) (between : Db → Db) (ctx : TenantContext) (p : RequestPrincipal) (id : String)
    (to : TicketState) (db db' : Db) (t : Ticket)
    → transition_in now between ctx p id to db ≡ ok (db', t)
    → Transitioned now ctx p id to db (between db) db' t
transition_in_sound now between ctx p id to db db' t e =
    let g = transition_in-Writes now between ctx p id to db db' t e in
    let w = g.writes in
    let new = record w.old { state = to; updated_at = now } in
    let a = before_update-Allows now ctx.actor w.old new w.row w.entries w.let_through in
    let b = before_update-eq-allowed now ctx.actor w.old new w.row w.entries w.let_through in
    let found' : find_ticket ctx id db' ≡ some w.row = Writes-find (λ x. (refl, refl, refl)) w in
    let found = g.found in
    let same : w.row ≡ t = cc in
    rw (← same) (record {
      current = g.current;
      old = w.old;
      was_read = g.was_read;
      was_there = w.found;
      unmoved = same_state-eq w.old.state g.current.state w.met;
      legal = a.legal;
      permitted = can_transition-may p g.current.state to g.granted;
      state = a.state;
      untouched = (a.priority, a.assignee);
      tables = rw (← b.1) w.result;
      reads_back = found';
    })
