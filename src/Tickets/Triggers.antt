-- ===== src/Tickets/Triggers.antt =====
-- What the update triggers of prisma/migrations let through.
use nivara_api_nestjs.Shared.{
  refl, ◌||◌, eq_iff, ◌&&◌, some, none, false, arith, true, ◌⊎◌, List, ◌≡◌, String, Option, ℕ,
}
use nivara_api_nestjs.Tickets.StateMachine.{
  entries_of, row_of, is_edit, enforce_transition, allowed, is_legal, is_relinked, AuditEntry,
  same_text, before_update,
}
use nivara_api_nestjs.Domain.{closed, Ticket, same_state, TicketState}
use nivara_api_nestjs.Principal.Context.{Actor}
use Prim.Native.Nat.{ℕ}

-- The row that a trigger lets through, and what it asked of the change.
pub record Allows (now : ℕ) (old new row : Ticket) : Type 0 where
  pub id : row.id ≡ new.id
  pub tenant : row.tenant_id ≡ new.tenant_id
  pub contact : row.contact_id ≡ new.contact_id
  pub spawned : row.spawned_from_ticket_id ≡ new.spawned_from_ticket_id
  pub root : row.root_ticket_id ≡ new.root_ticket_id
  pub state : row.state ≡ new.state
  pub priority : row.priority ≡ new.priority
  pub assignee : row.assignee_id ≡ new.assignee_id
  pub legal : (old.state ≡ new.state) ⊎ (is_legal old.state new.state ≡ true)
  pub unlinked : is_relinked old new ≡ false
  pub locked : old.state ≡ closed → is_edit old new ≡ false

pub same_state-eq : (a b : TicketState) → same_state a b ≡ true → a ≡ b
same_state-eq a b h = ground arith

pub same_state_self : (a : TicketState) → same_state a a ≡ true
same_state_self a = ground arith

pub same_text-eq : (a b : Option String) → same_text a b ≡ true → a ≡ b
same_text-eq none none h = refl
same_text-eq none (some b) h = cc
same_text-eq (some a) none h = cc
same_text-eq (some a) (some b) h = ground (arith, eq_iff a b)

-- The columns of the row that the trigger leaves.
record Keeps (now : ℕ) (new row : Ticket) : Type 0 where
  id : row.id ≡ new.id
  tenant : row.tenant_id ≡ new.tenant_id
  contact : row.contact_id ≡ new.contact_id
  spawned : row.spawned_from_ticket_id ≡ new.spawned_from_ticket_id
  root : row.root_ticket_id ≡ new.root_ticket_id
  state : row.state ≡ new.state
  priority : row.priority ≡ new.priority
  assignee : row.assignee_id ≡ new.assignee_id

row_of-Keeps : (now : ℕ) (old new : Ticket) → Keeps now new (row_of now old new)
unfolding row_of
row_of-Keeps now old new = record {
  id = ground arith;
  tenant = ground arith;
  contact = ground arith;
  spawned = ground arith;
  root = ground arith;
  state = ground arith;
  priority = ground arith;
  assignee = ground arith;
}

-- An update that is let through relinks nothing, leaves the priority and the assignee of a closed
-- ticket alone, and keeps the state or makes a legal move.
pub before_update-eq-allowed :
    (now : ℕ) (actor : Actor) (old new row : Ticket) (entries : List AuditEntry)
    → before_update now actor old new ≡ allowed row entries
    → (row ≡ row_of now old new)
      × (entries ≡ entries_of now actor old new)
      × (is_relinked old new ≡ false)
      × ((same_state old.state closed && is_edit old new) ≡ false)
      × ((same_state new.state old.state || is_legal old.state new.state) ≡ true)
unfolding before_update enforce_transition
before_update-eq-allowed now actor old new row entries e = ground arith

pub before_update-Allows :
    (now : ℕ) (actor : Actor) (old new row : Ticket) (entries : List AuditEntry)
    → before_update now actor old new ≡ allowed row entries
    → Allows now old new row
before_update-Allows now actor old new row entries e =
    let (same, _, unlinked, locked, legal) =
      before_update-eq-allowed now actor old new row entries e in
    let k = row_of-Keeps now old new in
    rw same (record {
      id = k.id;
      tenant = k.tenant;
      contact = k.contact;
      spawned = k.spawned;
      root = k.root;
      state = k.state;
      priority = k.priority;
      assignee = k.assignee;
      legal = ground (arith, same_state-eq new.state old.state);
      unlinked = unlinked;
      locked = λ c. ground arith;
    })
