-- ===== src/Tickets/Histories.antt =====
-- Any sequence of the operations of src/tickets/ticket.service.ts, by any principals, as the
-- database serialises them.
use nivara_api_nestjs.Tickets.Writes.{KeepsKeys, catch_throw-eq-ok, bind-eq-ok}
use nivara_api_nestjs.Tickets.Commits.{
  update-Writes, Writes-Rewritten, insert_ticket-Inserted, with_tenant-eq-ok,
}
use nivara_api_nestjs.Tickets.Transitions.{transition_in-Writes}
use nivara_api_nestjs.Tickets.Rows.{
  record_audit, chain_root_of, is_occupied, insert_ticket, is_live, Db, has_id,
}
use nivara_api_nestjs.Errors.{◌>>=◌, catch_throw, ok}
use nivara_api_nestjs.Tickets.Chains.{
  Kept-append, Kept-trans, ChainsValid-append, Kept-of_Rewritten, Kept-refl, ChainsValid-Rewritten,
  Kept, ChainsValid, Rewritten,
}
use nivara_api_nestjs.Tickets.TicketService.{
  rethrow_assignee, check_assignee, transition_in, rethrow_create, new_ticket, create_in,
  set_assignee, set_priority, transition, create, Done, CreateTicketInput, update, with_tenant,
}
use nivara_api_nestjs.Shared.{
  ap, Option, ◌++◌, ◌&&◌, inr, inl, ◌∙◌, refl, [], arith, ◌∷◌, ◌⊎◌, String, false, ◌≡◌, ℕ,
}
use nivara_api_nestjs.Principal.{tenant_of, RequestPrincipal}
use nivara_api_nestjs.Domain.{TicketPriority, TicketState, Ticket}
use Prim.Native.Nat.{ℕ}

-- A committed operation, from the tables that it met to those that it left. A transition may have
-- read earlier tables than those that its write met.
pub data Step : Db → Db → Type 0 where
  creates :
      (id : String) (now : ℕ) (p : RequestPrincipal) (input : CreateTicketInput) {db : Db}
      {out : Done}
      → create id now p input db ≡ ok out
      → Step db out.0
  transitions :
      (now : ℕ) (between : Db → Db) (p : RequestPrincipal) (id : String) (to : TicketState)
      {db : Db} {out : Done}
      → transition now between p id to db ≡ ok out
      → Step (between db) out.0
  prioritises :
      (now : ℕ) (p : RequestPrincipal) (id : String) (priority : TicketPriority) {db : Db}
      {out : Done}
      → set_priority now p id priority db ≡ ok out
      → Step db out.0
  assigns :
      (now : ℕ) (p : RequestPrincipal) (id : String) (assignee : Option String) {db : Db}
      {out : Done}
      → set_assignee now p id assignee db ≡ ok out
      → Step db out.0

pub data Steps : Db → Db → Type 0 where
  still : {db : Db} → Steps db db
  then_step : {db db' db'' : Db} → Step db db' → Steps db' db'' → Steps db db''

-- What a step does to the rows.
abbrev Outcome : Db → Db → Type 0
Outcome db db' =
    Rewritten db.tickets db'.tickets
    ⊎ ((t : Ticket) × (db'.tickets ≡ db.tickets ++ t ∷ [])
        × (has_id t.id db.tickets ≡ false)
        × ((is_live t && is_occupied t.tenant_id (chain_root_of t) db.tickets) ≡ false))

create-Outcome :
    (id : String) (now : ℕ) (p : RequestPrincipal) (input : CreateTicketInput) (db : Db)
    (out : Done)
    → create id now p input db ≡ ok out
    → Outcome db out.0
unfolding create create_in record_audit
create-Outcome id now p input db out e =
    let (r, inner, last) = bind-eq-ok (with_tenant p _) _ e in
    let (ctx, _, body) = with_tenant-eq-ok p _ inner in
    let (q, inserted, audited) = bind-eq-ok (catch_throw (insert_ticket ctx db _) _) _ body in
    let new = new_ticket id now (tenant_of p) input in
    let w =
      insert_ticket-Inserted ctx db new q.0 q.1
        (catch_throw-eq-ok (insert_ticket ctx db new) rethrow_create inserted) in
    let tables : out.0.tickets ≡ q.0.tickets = cc in
    inr (q.1, tables ∙ ap (λ d. d.tickets) w.tables, w.fresh, w.alone)

update-Outcome :
    (now : ℕ) (p : RequestPrincipal) (id : String) (set : Ticket → Ticket) (db db' : Db)
    (t : Ticket)
    → KeepsKeys set
    → ChainsValid db.tickets
    → update now p id set db ≡ ok (db', t)
    → Rewritten db.tickets db'.tickets
update-Outcome now p id set db db' t same v e =
    Writes-Rewritten same v (update-Writes now p id set db db' t e).1

check_assignee-eq-ok :
    (assignee : Option String) (r q : Db × Ticket) → check_assignee assignee r ≡ ok q → r ≡ q
unfolding check_assignee
check_assignee-eq-ok assignee r q e = ground arith

Step-Outcome : {db db' : Db} → Step db db' → ChainsValid db.tickets → Outcome db db'
unfolding transition transition_in set_priority set_assignee
Step-Outcome (creates id now p input {db} {out} e) v = create-Outcome id now p input db out e
Step-Outcome (transitions now between p id to {db} {out} e) v =
    let (r, inner, last) = bind-eq-ok (with_tenant p _) _ e in
    let (ctx, _, body) = with_tenant-eq-ok p _ inner in
    let guarded = transition_in-Writes now between ctx p id to db r.0 r.1 body in
    let tables : out.0 ≡ r.0 = cc in
    rw tables (inl (Writes-Rewritten (λ t. (refl, refl, refl)) v guarded.writes))
Step-Outcome (prioritises now p id priority {db} {out} e) v =
    let set = λ (t : Ticket). record t { priority = priority; updated_at = now } in
    let (r, inner, last) = bind-eq-ok (update now p id set db) _ e in
    let tables : out.0 ≡ r.0 = cc in
    rw tables (inl (update-Outcome now p id set db r.0 r.1 (λ t. (refl, refl, refl)) v inner))
Step-Outcome (assigns now p id assignee {db} {out} e) v =
    let set = λ (t : Ticket). record t { assignee_id = assignee; updated_at = now } in
    let (r, inner, last) = bind-eq-ok (catch_throw _ rethrow_assignee) _ e in
    let (q, inner', checked) = bind-eq-ok (update now p id set db) (check_assignee assignee) (
      catch_throw-eq-ok (update now p id set db >>= check_assignee assignee) rethrow_assignee
        inner) in
    let same = check_assignee-eq-ok assignee q r checked in
    let tables : out.0 ≡ q.0 = cc in
    rw tables (inl (update-Outcome now p id set db q.0 q.1 (λ t. (refl, refl, refl)) v inner'))

ChainsValid-Outcome :
    (db db' : Db) → Outcome db db' → ChainsValid db.tickets → ChainsValid db'.tickets
ChainsValid-Outcome db db' (inl r) v = ChainsValid-Rewritten r v
ChainsValid-Outcome db db' (inr (t, e, fresh, alone)) v =
    rw e (ChainsValid-append db.tickets t v fresh alone)

Kept-Outcome : (db db' : Db) → Outcome db db' → Kept db.tickets db'.tickets
Kept-Outcome db db' (inl r) = Kept-of_Rewritten r
Kept-Outcome db db' (inr (t, e, _, _)) = rw e (Kept-append db.tickets (t ∷ []))

-- Over any sequence of committed creations, transitions, priority changes and assignments, ticket
-- ids stay distinct and every chain of follow-up tickets keeps at most one live ticket, if both
-- held at the start.
pub Steps-ChainsValid :
    {db db' : Db} → Steps db db' → ChainsValid db.tickets → ChainsValid db'.tickets
Steps-ChainsValid still v = v
Steps-ChainsValid (then_step {db} {db'} s ss) v =
    Steps-ChainsValid ss (ChainsValid-Outcome db db' (Step-Outcome s v) v)

-- From tables with distinct ids and at most one live ticket in each chain, over any sequence of
-- committed operations every ticket stays in the table with its tenant, contact and chain, and a
-- closed ticket stays closed with its priority and its assignee.
pub Steps-Kept : {db db' : Db} → Steps db db' → ChainsValid db.tickets → Kept db.tickets db'.tickets
Steps-Kept {db} still v = Kept-refl db.tickets
Steps-Kept (then_step {db} {db'} s ss) v =
    let o = Step-Outcome s v in
    Kept-trans (Kept-Outcome db db' o) (Steps-Kept ss (ChainsValid-Outcome db db' o v))
