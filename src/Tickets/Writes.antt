-- ===== src/Tickets/Writes.antt =====
-- What an `updateMany` of src/tickets/ticket.service.ts that succeeded has done to the tables
-- (prisma/migrations for the triggers), by inversion of binds and handlers.
use nivara_api_nestjs.Tickets.TicketService.{or_not_found, settle}
use nivara_api_nestjs.Tickets.Rows.{
  find_ticket, is_visible, update_found, update_many, written, replace, Db, find_in,
}
use nivara_api_nestjs.Principal.Context.{TenantContext}
use nivara_api_nestjs.Errors.{throw, ok, catch_throw, ErrorCode, Thrown, ◌>>=◌, Result}
use nivara_api_nestjs.Shared.{
  ◌∙◌, [], inr, eq_iff, inl, Bool-cases, zero, ◌∷◌, arith, true, none, refl, ◌++◌, some, suc, Bool,
  List, ◌≡◌, String, Option, ℕ,
}
use nivara_api_nestjs.Tickets.StateMachine.{allowed, refused, before_update, Verdict, AuditEntry}
use nivara_api_nestjs.Tickets.Triggers.{before_update-Allows}
use nivara_api_nestjs.Domain.{Ticket}
use Prim.Native.Nat.{suc, ℕ}

pub bind-eq-ok {ℓ κ} :
    {Value : Type ℓ} {Next : Type κ} (step : Result Value) (rest : Value → Result Next) {out : Next}
    → (step >>= rest) ≡ ok out
    → (v : Value) × (step ≡ ok v) × (rest v ≡ ok out)
bind-eq-ok (throw thrown) rest e = cc
bind-eq-ok (ok v) rest e = (v, refl, e)

pub catch_throw-eq-ok {ℓ} :
    {A : Type ℓ} (m : Result A) (h : Thrown → Thrown) {a : A} → catch_throw m h ≡ ok a → m ≡ ok a
catch_throw-eq-ok (ok b) h e = e
catch_throw-eq-ok (throw x) h e = cc

pub or_not_found-eq-ok {ℓ} :
    {A : Type ℓ} (o : Option A) {a : A} → or_not_found o ≡ ok a → o ≡ some a
or_not_found-eq-ok none e = cc
or_not_found-eq-ok (some b) e = cc

-- The tables after a row and its audit entries were written.
abbrev pub wrote : Db → String → Ticket → List AuditEntry → Db
wrote db id row entries = record db {
  tickets = replace id row db.tickets;
  audit = db.audit ++ entries;
}

-- One row was written: it was found, it met the condition, and the triggers let the change through.
pub record Writes (now : ℕ) (ctx : TenantContext) (id : String) (where' : Ticket → Bool)
    (set : Ticket → Ticket) (db db' : Db) : Type 0 where
  pub old : Ticket
  pub row : Ticket
  pub entries : List AuditEntry
  pub found : find_ticket ctx id db ≡ some old
  pub met : where' old ≡ true
  pub let_through : before_update now ctx.actor old (set old) ≡ allowed row entries
  pub result : db' ≡ wrote db id row entries

module _ (now : ℕ) (ctx : TenantContext) (id : String) (where' : Ticket → Bool)
    (set : Ticket → Ticket) (db : Db) where
  written-Writes :
      (old : Ticket) (v : Verdict) (db' : Db) (n : ℕ)
      → find_ticket ctx id db ≡ some old
      → where' old ≡ true
      → before_update now ctx.actor old (set old) ≡ v
      → written id db v ≡ ok (db', n)
      → Writes now ctx id where' set db db'
  unfolding written
  written-Writes old (refused code) db' n f m b e = cc
  written-Writes old (allowed row entries) db' n f m b e = record {
    old = old;
    row = row;
    entries = entries;
    found = f;
    met = m;
    let_through = b;
    result = cc;
  }

  update_found-Writes :
      (o : Option Ticket) (db' : Db) (n : ℕ)
      → find_ticket ctx id db ≡ o
      → update_found now ctx id where' set db o ≡ ok (db', suc n)
      → Writes now ctx id where' set db db'
  unfolding update_found
  update_found-Writes none db' n f e = absurd (ground arith)
  update_found-Writes (some old) db' n f e = elim (Bool-cases (where' old)) [
    | inl met ↦
        written-Writes old (before_update now ctx.actor old (set old)) db' (suc n) f met refl
          (ground arith)
    | inr unmet ↦ absurd (ground arith)
  ]

  pub update_many-Writes :
      (db' : Db) (n : ℕ)
      → update_many now ctx id where' set db ≡ ok (db', suc n)
      → Writes now ctx id where' set db db'
  unfolding update_many
  update_many-Writes db' n e = update_found-Writes (find_ticket ctx id db) db' n refl e

pub settle-eq-ok :
    (code : ErrorCode) (ctx : TenantContext) (id : String) (r : Db × ℕ) (db' : Db) (t : Ticket)
    → settle code ctx id r ≡ ok (db', t)
    → (n : ℕ) × (r ≡ (db', suc n)) × (find_ticket ctx id db' ≡ some t)
unfolding settle
settle-eq-ok code ctx id (db, zero) db' t e = absurd (ground arith)
settle-eq-ok code ctx id (db, suc n) db' t e =
    let (t', found, same) = bind-eq-ok (or_not_found (find_ticket ctx id db)) _ e in
    let found' = or_not_found-eq-ok (find_ticket ctx id db) found in
    let same_db : db ≡ db' = cc in (n, cc, rw (← same_db) (cc))

find_in-replace :
    (ctx : TenantContext) (id : String) (old row : Ticket) (ts : List Ticket)
    → find_in ctx id ts ≡ some old
    → row.id ≡ id
    → is_visible ctx row ≡ true
    → find_in ctx id (replace id row ts) ≡ some row
unfolding find_in replace
find_in-replace ctx id old row [] e i v = cc
find_in-replace ctx id old row (t ∷ ts) e i v =
    ground (arith, find_in-replace ctx id old row ts, eq_iff row.id id)

pub find_in-facts :
    (ctx : TenantContext) (id : String) (ts : List Ticket) (t : Ticket)
    → find_in ctx id ts ≡ some t
    → (t.id ≡ id) × (is_visible ctx t ≡ true)
unfolding find_in
find_in-facts ctx id [] t e = cc
find_in-facts ctx id (x ∷ xs) t e = ground (arith, find_in-facts ctx id xs t, eq_iff x.id id)

-- The statement sets no column that identifies a ticket.
abbrev pub KeepsKeys : (Ticket → Ticket) → Type 0
KeepsKeys set =
    (t : Ticket)
    → ((set t).id ≡ t.id) × ((set t).tenant_id ≡ t.tenant_id) × ((set t).contact_id ≡ t.contact_id)

-- After a write that keeps the ids and the owner, the row that was written is found.
pub Writes-find :
    {now : ℕ} {ctx : TenantContext} {id : String} {where' : Ticket → Bool} {set : Ticket → Ticket}
    {db db' : Db}
    → KeepsKeys set
    → (w : Writes now ctx id where' set db db') → find_ticket ctx id db' ≡ some w.row
unfolding find_ticket is_visible
Writes-find {now} {ctx} {id} {where'} {set} {db} {db'} same w =
    let (old_id, seen) = find_in-facts ctx id db.tickets w.old w.found in
    let a = before_update-Allows now ctx.actor w.old (set w.old) w.row w.entries w.let_through in
    let s = same w.old in
    rw w.result (
      find_in-replace ctx id w.old w.row db.tickets w.found (a.id ∙ s.0 ∙ old_id)
        (rw (a.tenant, s.1, a.contact, s.2) seen))
