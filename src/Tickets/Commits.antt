-- ===== src/Tickets/Commits.antt =====
-- What a statement of src/tickets/ticket.service.ts that committed did to the rows: an update
-- rewrote one of them, an insert appended one.
use nivara_api_nestjs.Tickets.Writes.{
  KeepsKeys, update_many-Writes, catch_throw-eq-ok, settle-eq-ok, Writes, bind-eq-ok,
}
use nivara_api_nestjs.Tickets.Rows.{
  has_row, linked, is_visible, chain_root_of, is_occupied, constrained, find_ticket, insert_ticket,
  is_live, Db, has_id, find_in, replace,
}
use nivara_api_nestjs.Errors.{not_found, Result, ok}
use nivara_api_nestjs.Tickets.Chains.{
  ChainsValid, KeptRow-refl, KeptRow, rewritten, Keyed, all_rewritten, Rewritten,
}
use nivara_api_nestjs.Tickets.TicketService.{armed, in_context, settle, update, with_tenant}
use nivara_api_nestjs.Shared.{
  none, Option, ◌++◌, ◌&&◌, inr, eq_iff, inl, ◌∙◌, Bool-cases, refl, [], some, str_eq, true, Bool,
  arith, ◌∷◌, ◌⊎◌, String, false, ◌≡◌, List, ℕ,
}
use nivara_api_nestjs.Principal.{tenant_context_for, RequestPrincipal}
use nivara_api_nestjs.Principal.Context.{ContextSettings, context_settings, TenantContext}
use nivara_api_nestjs.Domain.{opened, same_state, closed, Ticket}
use nivara_api_nestjs.Tickets.Triggers.{before_update-Allows, same_text-eq}
use nivara_api_nestjs.Tickets.StateMachine.{is_edit, is_legal, is_relinked}
use Prim.Native.Nat.{ℕ}

closed_stays :
    (old new : Ticket)
    → old.state ≡ closed
    → (old.state ≡ new.state) ⊎ (is_legal old.state new.state ≡ true)
    → new.state ≡ closed
unfolding is_legal
closed_stays old new c l = ground arith

closed_unedited :
    (old new : Ticket)
    → is_edit old new ≡ false
    → (new.priority ≡ old.priority) × (new.assignee_id ≡ old.assignee_id)
unfolding is_edit
closed_unedited old new h =
    (ground arith, ground (arith, same_text-eq new.assignee_id old.assignee_id))

same_root :
    (old new : Ticket) → is_relinked old new ≡ false → new.root_ticket_id ≡ old.root_ticket_id
unfolding is_relinked
same_root old new h = ground (arith, same_text-eq new.root_ticket_id old.root_ticket_id)

pub Writes-KeptRow :
    {now : ℕ} {ctx : TenantContext} {id : String} {where' : Ticket → Bool} {set : Ticket → Ticket}
    {db db' : Db}
    → KeepsKeys set
    → (w : Writes now ctx id where' set db db') → KeptRow w.old w.row
Writes-KeptRow {now} {ctx} {id} {where'} {set} same w =
    let a = before_update-Allows now ctx.actor w.old (set w.old) w.row w.entries w.let_through in
    let (i, t, c) = same w.old in
    record {
      id = a.id ∙ i;
      tenant = a.tenant ∙ t;
      contact = a.contact ∙ c;
      root = a.root ∙ same_root w.old (set w.old) a.unlinked;
      final = λ z.
          let (p, q) = closed_unedited w.old (set w.old) (a.locked z) in
          (a.state ∙ closed_stays w.old (set w.old) z a.legal, a.priority ∙ p, a.assignee ∙ q);
    }

-- Where the id is another's, `replace` leaves the row.
replace-other :
    (id : String) (row : Ticket) (ts : List Ticket) → has_id id ts ≡ false → replace id row ts ≡ ts
unfolding replace has_id
replace-other id row [] h = refl
replace-other id row (t ∷ ts) h =
    let (other, rest) : (str_eq t.id id ≡ false) × (has_id id ts ≡ false) = ground arith in
    rw (other, replace-other id row ts rest) refl

Rewritten-refl : (ts : List Ticket) → Rewritten ts ts
Rewritten-refl [] = all_rewritten
Rewritten-refl (t ∷ ts) = rewritten (KeptRow-refl t) (Rewritten-refl ts)

has_id_of_find_in :
    (ctx : TenantContext) (id : String) (t : Ticket) (ts : List Ticket)
    → find_in ctx id ts ≡ some t
    → has_id id ts ≡ true
unfolding find_in has_id
has_id_of_find_in ctx id t [] f = cc
has_id_of_find_in ctx id t (x ∷ xs) f = ground (arith, has_id_of_find_in ctx id t xs)

replace-Rewritten :
    (ctx : TenantContext) (id : String) (old row : Ticket) (ts : List Ticket)
    → Keyed ts
    → find_in ctx id ts ≡ some old
    → KeptRow old row
    → Rewritten ts (replace id row ts)
unfolding find_in replace
replace-Rewritten ctx id old row [] v f k = cc
replace-Rewritten ctx id old row (t ∷ ts) v f k = elim (Bool-cases (str_eq t.id id)) [
  | inl here ↦
      let same = (eq_iff t.id id).0 here in
      let absent : has_id id ts ≡ false = rw (← same) (v.0) in
      let found : t ≡ old = ground (arith, has_id_of_find_in ctx id old ts) in
      rw (here, replace-other id row ts absent, found) (rewritten k (Rewritten-refl ts))
  | inr other ↦
      rw other
        (rewritten (KeptRow-refl t) (replace-Rewritten ctx id old row ts v.1 (ground arith) k))
]

pub Writes-Rewritten :
    {now : ℕ} {ctx : TenantContext} {id : String} {where' : Ticket → Bool} {set : Ticket → Ticket}
    {db db' : Db}
    → KeepsKeys set
    → ChainsValid db.tickets
    → Writes now ctx id where' set db db'
    → Rewritten db.tickets db'.tickets
unfolding find_ticket
Writes-Rewritten {ctx = ctx} {id = id} {db = db} same v w =
    rw w.result
      (replace-Rewritten ctx id w.old w.row db.tickets v.keyed w.found (Writes-KeptRow same w))

-- What an insert that went through has checked, and the row that it wrote.
pub record Inserted (ctx : TenantContext) (db : Db) (new : Ticket) (db' : Db) (t : Ticket)
    : Type 0 where
  pub fresh : has_id t.id db.tickets ≡ false
  pub alone : (is_live t && is_occupied t.tenant_id (chain_root_of t) db.tickets) ≡ false
  pub seen : is_visible ctx t ≡ true
  pub asker : has_row t.tenant_id t.contact_id db.contacts ≡ true
  pub tables : db' ≡ record db { tickets = db.tickets ++ t ∷ [] }

constrained-eq-ok :
    (ctx : TenantContext) (db : Db) (new t : Ticket) (db' : Db)
    → constrained ctx db t ≡ ok db'
    → Inserted ctx db new db' t
unfolding constrained
constrained-eq-ok ctx db new t db' e = record {
  fresh = ground arith;
  alone = ground arith;
  seen = ground arith;
  asker = ground arith;
  tables = ground arith;
}

pub insert_ticket-Inserted :
    (ctx : TenantContext) (db : Db) (new : Ticket) (db' : Db) (t : Ticket)
    → insert_ticket ctx db new ≡ ok (db', t)
    → Inserted ctx db new db' t
unfolding insert_ticket
insert_ticket-Inserted ctx db new db' t e = elim (Bool-cases (same_state new.state opened)) [
  | inr born ↦ let e' = (rw born at e) in cc
  | inl born ↦
      let (t', link, rest) =
        bind-eq-ok (linked ctx db new new.spawned_from_ticket_id) _ (rw born at e) in
      let (db'', checked, last) = bind-eq-ok (constrained ctx db t') _ rest in
      let same : t' ≡ t = cc in
      let same_db : db'' ≡ db' = cc in
      constrained-eq-ok ctx db new t db' (rw (same, same_db) at checked)
]

armed-eq-ok {ℓ} :
    {A : Type ℓ} (body : Result A) (s : Option ContextSettings) {a : A}
    → armed body s ≡ ok a
    → body ≡ ok a
unfolding armed
armed-eq-ok body none e = cc
armed-eq-ok body (some s) e = e

in_context-eq-ok {ℓ} :
    {A : Type ℓ} (work : TenantContext → Result A) (o : Option TenantContext) {a : A}
    → in_context work o ≡ ok a
    → (ctx : TenantContext) × (o ≡ some ctx) × (work ctx ≡ ok a)
unfolding in_context
in_context-eq-ok work none e = cc
in_context-eq-ok work (some ctx) e = (ctx, refl, armed-eq-ok (work ctx) (context_settings ctx) e)

pub with_tenant-eq-ok {ℓ} :
    {A : Type ℓ} (p : RequestPrincipal) (work : TenantContext → Result A) {a : A}
    → with_tenant p work ≡ ok a
    → (ctx : TenantContext) × (tenant_context_for p ≡ some ctx) × (work ctx ≡ ok a)
unfolding with_tenant
with_tenant-eq-ok p work e = in_context-eq-ok work (tenant_context_for p) e

pub update-Writes :
    (now : ℕ) (p : RequestPrincipal) (id : String) (set : Ticket → Ticket) (db db' : Db)
    (t : Ticket)
    → update now p id set db ≡ ok (db', t)
    → (ctx : TenantContext) × Writes now ctx id (λ x. true) set db db'
unfolding update
update-Writes now p id set db db' t e =
    let (ctx, _, e') = with_tenant-eq-ok p _ e in
    let (r, wrote', back) = bind-eq-ok _ (settle not_found ctx id) e' in
    let (n, same, _) = settle-eq-ok not_found ctx id r db' t back in
    (
      ctx,
      update_many-Writes now ctx id (λ x. true) set db db' n
          (rw same at (catch_throw-eq-ok _ _ wrote')),
    )
