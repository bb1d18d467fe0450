-- ===== src/Tickets/Rows.antt =====
-- The tables as a transaction sees them: row-level security on "ticket" and "message", the
-- statements that the services send through Prisma, and the triggers, constraints and indexes that
-- the database answers them with (prisma/schema.prisma and prisma/migrations).
use nivara_api_nestjs.Errors.{◌>>=◌, throw, cause_code, no_cause, ok, Result, driver, Thrown}
use nivara_api_nestjs.Domain.{closed, opened, same_state, Message, Ticket}
use nivara_api_nestjs.Tickets.StateMachine.{
  same_text, allowed, before_update, refused, Verdict, AuditEntry,
}
use nivara_api_nestjs.Shared.{
  true, ◌||◌, [], false, if◌then◌else◌, not, str_eq, ◌&&◌, Bool, none, some, ◌++◌, ◌∷◌, List,
  Option, String, ℕ,
}
use Prim.Native.String.{[], ◌∷◌, String}
use nivara_api_nestjs.Principal.Context.{contact, Actor, TenantContext}
use Prim.Native.Nat.{ℕ}

pub record Db : Type 0 where
  pub tickets : List Ticket
  pub messages : List Message
  pub audit : List AuditEntry
  pub contacts : List (String × String)
  pub users : List (String × String)

-- `sql_state code` is what a trigger's RAISE arrives as, and the other two are Prisma's codes.
abbrev pub sql_state : String → Thrown
sql_state code = driver none (cause_code (some code))

abbrev pub foreign_key_violation : Thrown
foreign_key_violation = driver (some "P2003") no_cause

abbrev pub unique_violation : Thrown
unique_violation = driver (some "P2002") no_cause

-- The policy tenant_isolation: a contact sees its own tickets, everybody else the tenant's.
admits : Actor → String → Bool
admits (contact id) contact_id = str_eq contact_id id
admits _ contact_id = true

unfoldable pub is_visible : TenantContext → Ticket → Bool
unfolding admits
is_visible ctx t = str_eq t.tenant_id ctx.tenant_id && admits ctx.actor t.contact_id

-- `findUnique({ where: { id } })`
unfoldable pub find_in : TenantContext → String → List Ticket → Option Ticket
find_in ctx id [] = none
find_in ctx id (t ∷ ts) =
    let rest = find_in ctx id ts in if str_eq t.id id && is_visible ctx t then some t else rest

unfoldable pub find_ticket : TenantContext → String → Db → Option Ticket
unfolding find_in
find_ticket ctx id db = find_in ctx id db.tickets

unfoldable pub replace : String → Ticket → List Ticket → List Ticket
replace id new [] = []
replace id new (t ∷ ts) = (if str_eq t.id id then new else t) ∷ replace id new ts

unfoldable pub written : String → Db → Verdict → Result (Db × ℕ)
unfolding replace
written id db (refused code) = throw (sql_state code)
written id db (allowed t entries) =
    ok (record db { tickets = replace id t db.tickets; audit = db.audit ++ entries }, 1)

unfoldable pub update_found :
    ℕ
    → TenantContext
    → String
    → (Ticket → Bool)
    → (Ticket → Ticket)
    → Db
    → Option Ticket
    → Result (Db × ℕ)
update_found now ctx id where' set db none = ok (db, 0)
update_found now ctx id where' set db (some t) =
    if where' t then written id db (before_update now ctx.actor t (set t)) else ok (db, 0)

-- `updateMany({ where: { id, …where' }, data })`, with the count of rows that it wrote
unfoldable pub update_many :
    ℕ → TenantContext → String → (Ticket → Bool) → (Ticket → Ticket) → Db → Result (Db × ℕ)
unfolding update_found
update_many now ctx id where' set db = update_found now ctx id where' set db (find_ticket ctx id db)

unfoldable pub has_row : String → String → List (String × String) → Bool
has_row tenant id [] = false
has_row tenant id ((t, i) ∷ rows) = str_eq t tenant && str_eq i id || has_row tenant id rows

-- `COALESCE("root_ticket_id", "id")`: `chainRootOf`
unfoldable pub or_id : Option String → String → String
or_id none id = id
or_id (some root) id = root

unfoldable pub chain_root_of : Ticket → String
unfolding or_id
chain_root_of t = or_id t.root_ticket_id t.id

-- The entries of the partial unique index ticket_one_live_per_chain.
unfoldable pub is_live : Ticket → Bool
is_live t = not (same_state t.state closed)

unfoldable pub occupies : String → String → Ticket → Bool
unfolding is_live chain_root_of
occupies tenant root t = is_live t && str_eq t.tenant_id tenant && str_eq (chain_root_of t) root

unfoldable pub is_occupied : String → String → List Ticket → Bool
is_occupied tenant root [] = false
is_occupied tenant root (t ∷ ts) = occupies tenant root t || is_occupied tenant root ts

unfoldable pub has_id : String → List Ticket → Bool
has_id id [] = false
has_id id (t ∷ ts) = str_eq t.id id || has_id id ts

-- The partial unique index ticket_one_live_per_slack_thread, where no row has half a route.
unfoldable pub holds_thread : Ticket → String → String → Ticket → Bool
unfolding is_live
holds_thread t channel thread x =
    is_live x
    && str_eq x.tenant_id t.tenant_id
    && same_text x.slack_channel_id (some channel)
    && same_text x.slack_thread_ts (some thread)

unfoldable pub any_holds : Ticket → String → String → List Ticket → Bool
unfolding holds_thread
any_holds t channel thread [] = false
any_holds t channel thread (x ∷ xs) =
    holds_thread t channel thread x || any_holds t channel thread xs

unfoldable pub route_taken : Ticket → Option String → Option String → List Ticket → Bool
unfolding any_holds
route_taken t (some channel) (some thread) ts = any_holds t channel thread ts
route_taken t _ _ ts = false

-- ticket_enforce_linkage on insert: the root and the reply route come from the visible parent.
unfoldable pub linked_to : Ticket → Option Ticket → Result Ticket
linked_to t none = throw (sql_state "TK003")
linked_to t (some parent) = ok (record t {
  root_ticket_id = some (chain_root_of parent);
  slack_channel_id = parent.slack_channel_id;
  slack_thread_ts = parent.slack_thread_ts;
})

unfoldable pub linked : TenantContext → Db → Ticket → Option String → Result Ticket
unfolding linked_to
linked ctx db t none = ok (record t { root_ticket_id = none })
linked ctx db t (some parent_id) = linked_to t (find_in ctx parent_id db.tickets)

unfoldable pub half_route : Option String → Option String → Bool
half_route none none = false
half_route (some c) (some t) = false
half_route _ _ = true

-- The policy's WITH CHECK, the check constraint, the primary key and the two indexes, and the
-- foreign key to the contact.
unfoldable pub constrained : TenantContext → Db → Ticket → Result Db
constrained ctx db t =
    if not (is_visible ctx t)
    then throw (sql_state "42501")
    else if half_route t.slack_channel_id t.slack_thread_ts
    then throw (sql_state "23514")
    else if has_id t.id db.tickets
        || is_live t && is_occupied t.tenant_id (chain_root_of t) db.tickets
        || is_live t && route_taken t t.slack_channel_id t.slack_thread_ts db.tickets
    then throw unique_violation
    else if not (has_row t.tenant_id t.contact_id db.contacts)
    then throw foreign_key_violation
    else ok (record db { tickets = db.tickets ++ t ∷ [] })

-- `ticket.create`: born open (ticket_enforce_birth_state refuses any other state), linked, checked.
unfoldable pub insert_ticket : TenantContext → Db → Ticket → Result (Db × Ticket)
unfolding linked constrained half_route has_row is_visible
insert_ticket ctx db t =
    if not (same_state t.state opened)
    then throw (sql_state "TK001")
    else linked ctx db t t.spawned_from_ticket_id >>= λ t'.
        constrained ctx db t' >>= λ db'. ok (db', t')

unfoldable pub record_audit : AuditEntry → Db → Db
record_audit e db = record db { audit = db.audit ++ e ∷ [] }
