-- ===== src/Tickets/Creations.antt =====
-- What a successful `createIn` of src/tickets/ticket.service.ts has done.
use nivara_api_nestjs.Shared.{
  refl, ap, sym, [], ◌∷◌, ◌++◌, ◌∙◌, inl, arith, inr, false, none, true, Bool-cases, some, ◌&&◌,
  ◌≡◌, Bool, Option, String, ℕ,
}
use nivara_api_nestjs.Tickets.Writes.{find_in-facts, catch_throw-eq-ok, bind-eq-ok}
use nivara_api_nestjs.Domain.{normal, same_state, opened, Ticket}
use nivara_api_nestjs.Tickets.Rows.{
  find_ticket, chain_root_of, constrained, is_occupied, has_id, is_visible, find_in, has_row, Db,
  record_audit, insert_ticket, is_live, linked_to, linked,
}
use nivara_api_nestjs.Tickets.TicketService.{
  created_entry, rethrow_create, new_ticket, CreateTicketInput, create_in,
}
use nivara_api_nestjs.Tickets.Commits.{insert_ticket-Inserted}
use nivara_api_nestjs.Errors.{catch_throw, ok}
use nivara_api_nestjs.Principal.{tenant_of, RequestPrincipal}
use nivara_api_nestjs.Principal.Context.{TenantContext}
use Prim.Native.Nat.{ℕ}

-- Where a new ticket belongs: it begins a chain, with the reply route that it was given, or it
-- continues that of the ticket it was spawned from, with the reply route of that ticket.
pub data Linkage (ctx : TenantContext) (db : Db) (new t : Ticket) : Type 0 where
  begins :
      new.spawned_from_ticket_id ≡ none
      → t.root_ticket_id ≡ none
      → t.slack_channel_id ≡ new.slack_channel_id
      → t.slack_thread_ts ≡ new.slack_thread_ts
      → Linkage ctx db new t
  continues :
      (parent : Ticket)
      → new.spawned_from_ticket_id ≡ some parent.id
      → find_ticket ctx parent.id db ≡ some parent
      → t.root_ticket_id ≡ some (chain_root_of parent)
      → t.slack_channel_id ≡ parent.slack_channel_id
      → t.slack_thread_ts ≡ parent.slack_thread_ts
      → Linkage ctx db new t

-- The row with the three columns of another that the insert trigger sets.
abbrev linked_as : Ticket → Ticket → Ticket
linked_as new t = record new {
  root_ticket_id = t.root_ticket_id;
  slack_channel_id = t.slack_channel_id;
  slack_thread_ts = t.slack_thread_ts;
}

linked_to-Linkage :
    (ctx : TenantContext) (db : Db) (new t : Ticket) (id : String) (o : Option Ticket)
    → new.spawned_from_ticket_id ≡ some id
    → find_in ctx id db.tickets ≡ o
    → linked_to new o ≡ ok t
    → (t ≡ linked_as new t) × Linkage ctx db new t
unfolding linked_to find_ticket
linked_to-Linkage ctx db new t id none s f e = cc
linked_to-Linkage ctx db new t id (some q) s f e =
    let named = find_in-facts ctx id db.tickets q f in
    let same : record new {
      root_ticket_id = some (chain_root_of q);
      slack_channel_id = q.slack_channel_id;
      slack_thread_ts = q.slack_thread_ts;
    }
        ≡ t =
      cc in
    rw (← same) (
      refl,
      continues q (s ∙ ap some (sym named.0)) (ap (λ i. find_in ctx i db.tickets) named.0 ∙ f) refl
          refl refl,
    )

linked-Linkage :
    (ctx : TenantContext) (db : Db) (new t : Ticket) (o : Option String)
    → new.spawned_from_ticket_id ≡ o
    → linked ctx db new o ≡ ok t
    → (t ≡ linked_as new t) × Linkage ctx db new t
unfolding linked
linked-Linkage ctx db new t none s e =
    let same : record new { root_ticket_id = none } ≡ t = cc in
    rw (← same) (refl, begins s refl refl refl)
linked-Linkage ctx db new t (some parent_id) s e =
    linked_to-Linkage ctx db new t parent_id (find_in ctx parent_id db.tickets) s refl e

inserted-Linkage :
    (ctx : TenantContext) (db db' : Db) (new t : Ticket)
    → insert_ticket ctx db new ≡ ok (db', t)
    → (t ≡ linked_as new t) × Linkage ctx db new t
unfolding insert_ticket
inserted-Linkage ctx db db' new t e = elim (Bool-cases (same_state new.state opened)) [
  | inr born ↦ let e' = (rw born at e) in cc
  | inl born ↦
      let e' = (rw born at e) in
      let (t', link, rest) = bind-eq-ok (linked ctx db new new.spawned_from_ticket_id) _ e' in
      let (db'', checked, last) = bind-eq-ok (constrained ctx db t') _ rest in
      let l = linked-Linkage ctx db new t' new.spawned_from_ticket_id refl link in
      let same : t' ≡ t = cc in rw (← same) l
]

-- A ticket that was created: as it was asked for, open and untriaged, for a contact of its tenant,
-- visible to its creator, linked, alone in its chain, and recorded in the audit log.
pub record Created (id : String) (now : ℕ) (ctx : TenantContext) (p : RequestPrincipal)
    (input : CreateTicketInput) (db db' : Db) (t : Ticket) : Type 0 where
  pub named : t.id ≡ id
  pub owned : t.tenant_id ≡ tenant_of p
  pub subject : t.subject ≡ input.subject
  pub contact : t.contact_id ≡ input.contact_id
  pub source : t.source ≡ input.source
  pub parent : t.spawned_from_ticket_id ≡ input.spawned_from_ticket_id
  pub born : t.state ≡ opened
  pub untriaged : (t.priority ≡ normal) × (t.assignee_id ≡ none)
  pub linkage : Linkage ctx db (new_ticket id now (tenant_of p) input) t
  pub asker : has_row (tenant_of p) input.contact_id db.contacts ≡ true
  pub seen : is_visible ctx t ≡ true
  pub fresh : has_id id db.tickets ≡ false
  pub alone : is_occupied (tenant_of p) (chain_root_of t) db.tickets ≡ false
  pub tables : db' ≡ record db {
    tickets = db.tickets ++ t ∷ [];
    audit = db.audit ++ created_entry now ctx t ∷ [];
  }

alone_of_live :
    (t : Ticket) (occupied : Bool)
    → t.state ≡ opened
    → (is_live t && occupied) ≡ false
    → occupied ≡ false
unfolding is_live
alone_of_live t occupied s h = ground arith

-- A ticket that is created has the id, the subject, the contact, the source and the parent that
-- were asked for, is of the creator's tenant, open, of normal priority and unassigned; without a
-- parent it begins a chain with the reply route that was given, with one, which the creator sees,
-- it has the root and the reply route of the parent's chain. Its id is new, its contact one of
-- the tenant, it is visible to the creator, its chain had no live ticket, and the tables grow by
-- its row and by its audit entry alone.
pub create_in-Created :
    (id : String) (now : ℕ) (ctx : TenantContext) (p : RequestPrincipal) (input : CreateTicketInput)
    (db db' : Db) (t : Ticket)
    → create_in id now ctx p input db ≡ ok (db', t)
    → Created id now ctx p input db db' t
unfolding create_in record_audit new_ticket
create_in-Created id now ctx p input db db' t e =
    let new = new_ticket id now (tenant_of p) input in
    let (q, inserted, last) =
      bind-eq-ok (catch_throw (insert_ticket ctx db new) rethrow_create) _ e in
    let insert = catch_throw-eq-ok (insert_ticket ctx db new) rethrow_create inserted in
    let w = insert_ticket-Inserted ctx db new q.0 q.1 insert in
    let (row, linkage) = inserted-Linkage ctx db q.0 new q.1 insert in
    let same : q.1 ≡ t = cc in
    let tables : record_audit (created_entry now ctx q.1) q.0 ≡ db' = cc in
    let grown = w.tables in
    let state = ap (λ x. x.state) row in
    let owner = ap (λ x. x.tenant_id) row in
    let asker = ap (λ x. x.contact_id) row in
    rw (← same) (record {
      named = ap (λ x. x.id) row;
      owned = owner;
      subject = ap (λ x. x.subject) row;
      contact = asker;
      source = ap (λ x. x.source) row;
      parent = ap (λ x. x.spawned_from_ticket_id) row;
      born = state;
      untriaged = (ap (λ x. x.priority) row, ap (λ x. x.assignee_id) row);
      linkage = linkage;
      asker = rw (owner, asker) at w.asker;
      seen = w.seen;
      fresh = rw (ap (λ x. x.id) row) at w.fresh;
      alone = rw owner at (alone_of_live q.1 _ state w.alone);
      tables = sym tables ∙ ap (record_audit (created_entry now ctx q.1)) grown;
    })
