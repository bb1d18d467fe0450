-- ===== src/Conversation/Posting.antt =====
-- src/conversation/message.service.ts and thread.ts: a message is posted on a ticket, under the
-- policy, the stamp and the observer of the table `message` (prisma/migrations).
use nivara_api_nestjs.Errors.{
  catch_throw, not_found, ◌>>=◌, fail, ok, throw, Result, Thrown, is_foreign_key_violation,
}
use nivara_api_nestjs.Realtime.Service.{message, Announcement}
use nivara_api_nestjs.Tickets.Rows.{foreign_key_violation, sql_state, find_ticket, Db, update_many}
use Prim.Native.String.{[], ◌∷◌, String}
use nivara_api_nestjs.Principal.Context.{
  kind_system, system, kind_contact, kind_service, service, contact, kind_user, user, ActorKind,
  Actor, TenantContext,
}
use nivara_api_nestjs.Shared.{
  [], ◌||◌, none, not, ◌&&◌, ◌++◌, ◌∷◌, false, if◌then◌else◌, some, str_eq, true, Bool, List,
  Option, String, ℕ,
}
use mathlib.Core.Option.{none}
use nivara_api_nestjs.Principal.{RequestPrincipal, tenant_of}
use nivara_api_nestjs.Domain.{Ticket, Message}
use nivara_api_nestjs.Outbound.Dispatch.{Outbox, dispatch_in}
use nivara_api_nestjs.Tickets.TicketService.{with_tenant}
use Prim.Native.Nat.{ℕ}

-- `current_actor_kind()` and `current_actor_id()`
unfoldable pub kind_of_actor : Actor → ActorKind
kind_of_actor (user id) = kind_user
kind_of_actor (contact id) = kind_contact
kind_of_actor (service id) = kind_service
kind_of_actor system = kind_system

unfoldable pub id_of_actor : Actor → Option String
id_of_actor (user id) = some id
id_of_actor (contact id) = some id
id_of_actor (service id) = some id
id_of_actor system = none

-- The row as `stamp_author` leaves it.
unfoldable pub stamped : String → ℕ → TenantContext → (tenant ticket body : String) → Message
unfolding kind_of_actor id_of_actor
stamped id now ctx tenant ticket body = record {
  id = id;
  tenant_id = tenant;
  ticket_id = ticket;
  body = body;
  author_kind = kind_of_actor ctx.actor;
  author_id = id_of_actor ctx.actor;
  created_at = now;
}

-- A contact writes on its own tickets, everybody else in the tenant.
abbrev pub owns_or_is_staff : Actor → Option Ticket → Bool
owns_or_is_staff (contact id) none = false
owns_or_is_staff (contact id) (some t) = true
owns_or_is_staff _ found = true

unfoldable pub may_insert : TenantContext → Db → Message → Bool
may_insert ctx db m =
    str_eq m.tenant_id ctx.tenant_id && owns_or_is_staff ctx.actor (find_ticket ctx m.ticket_id db)

unfoldable pub has_ticket : (tenant id : String) → List Ticket → Bool
has_ticket tenant id [] = false
has_ticket tenant id (t ∷ ts) =
    str_eq t.tenant_id tenant && str_eq t.id id || has_ticket tenant id ts

-- ticket_observe_message
unfoldable pub is_answer : ActorKind → Bool
is_answer kind_user = true
is_answer kind_service = true
is_answer kind_contact = false
is_answer kind_system = false

unfoldable pub first_of : Option ℕ → ℕ → Bool → Option ℕ
first_of (some at) now answers = some at
first_of none now true = some now
first_of none now false = none

unfoldable pub observed : Message → Ticket → Ticket
unfolding is_answer first_of
observed m t = record t {
  last_activity_at = m.created_at;
  first_response_at = first_of t.first_response_at m.created_at (is_answer m.author_kind);
}

unfoldable pub observe : ℕ → TenantContext → Message → Db → Result Db
unfolding update_many observed
observe now ctx m db =
    update_many now ctx m.ticket_id (λ t. true) (observed m)
      (record db { messages = db.messages ++ m ∷ [] })
    >>= λ r. ok r.0

unfoldable pub insert_message : ℕ → TenantContext → Message → Db → Result Db
unfolding may_insert has_ticket observe
insert_message now ctx m db =
    if not (may_insert ctx db m)
    then throw (sql_state "42501")
    else if not (has_ticket m.tenant_id m.ticket_id db.tickets)
    then throw foreign_key_violation
    else observe now ctx m db

abbrev pub rethrow_missing_ticket : Thrown → Thrown
unfolding is_foreign_key_violation
rethrow_missing_ticket e = if is_foreign_key_violation e then fail not_found else e

abbrev pub assert_ticket_visible : Option Ticket → Result Bool
assert_ticket_visible none = throw (fail not_found)
assert_ticket_visible (some t) = ok true

-- The ids of the message, of its delivery and of its job.
pub record PostIds : Type 0 where
  pub message_id : String
  pub delivery_id : String
  pub job_id : String

abbrev pub Posted : Type 0
Posted = Db × Outbox × Message

module _ (payload_text : String → String → String) (ids : PostIds) (now : ℕ) where
  unfoldable pub dispatched : Db → Message → Result Outbox → Result Posted
  dispatched db m (throw e) = throw e
  dispatched db m (ok box) = ok (db, box, m)

  unfoldable pub post_in :
      TenantContext → RequestPrincipal → (ticket_id body : String) → Db → Outbox → Result Posted
  unfolding insert_message stamped dispatched dispatch_in tenant_of
  post_in ctx p ticket_id body db box =
      let m = stamped ids.message_id now ctx (tenant_of p) ticket_id body in
      assert_ticket_visible (find_ticket ctx ticket_id db) >>= λ visible.
      catch_throw (insert_message now ctx m db) rethrow_missing_ticket >>= λ db'.
      dispatched db' m (dispatch_in payload_text ids.delivery_id ids.job_id now m ctx db' box)

  unfoldable pub post :
      RequestPrincipal
      → (ticket_id body : String) → Db
      → Outbox
      → Result (Posted × List Announcement)
  unfolding post_in with_tenant
  post p ticket_id body db box =
      with_tenant p (λ ctx. post_in ctx p ticket_id body db box) >>= λ r. ok (r, message r.2 ∷ [])
