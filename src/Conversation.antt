-- ===== src/Conversation.antt =====
-- src/conversation/contact-reply.ts and contact-reply.service.ts: where the reply of a contact
-- lands. `landing` is what is announced; the message itself is posted afterwards.
pub mod Chain
pub mod Landing
pub mod Posting
pub mod Replying
pub mod Answers
use nivara_api_nestjs.Shared.{
  [], zero, ◌&&◌, suc, if◌then◌else◌, some, ◌∷◌, none, Option, ◌||◌, List, str_eq, Bool, ℕ, String,
}
use nivara_api_nestjs.Errors.{◌>>=◌, catch_throw, primitive, Result, ok, throw}
use nivara_api_nestjs.Tickets.TicketService.{
  rethrow_chain_conflict, create_in, transition_in, CreateTicketInput,
}
use nivara_api_nestjs.Principal.{requester, ContactPrincipal}
use nivara_api_nestjs.Tickets.Rows.{is_visible, Db, chain_root_of, is_live}
use Prim.Native.String.{◌∷◌, String}
use nivara_api_nestjs.Domain.{
  closed, TicketSource, resolved, pending, on_hold, opened, TicketState, Ticket,
}
use nivara_api_nestjs.Tickets.StateMachine.{same_text}
use nivara_api_nestjs.Principal.Context.{TenantContext}

-- 'append', 'reopen' and 'spawn'
pub data ReplyOutcome : Type 0 where
  append reopen spawn : ReplyOutcome

unfoldable pub reply_outcome_for : TicketState → ReplyOutcome
reply_outcome_for opened = append
reply_outcome_for on_hold = append
reply_outcome_for pending = reopen
reply_outcome_for resolved = reopen
reply_outcome_for closed = spawn

pub record ReplyTarget : Type 0 where
  pub ticket : Ticket
  pub landing : ReplyOutcome

-- `inChainWith`, as a test on a row
unfoldable pub in_chain_with : Ticket → Ticket → Bool
unfolding chain_root_of
in_chain_with ticket x =
    str_eq x.id (chain_root_of ticket) || same_text x.root_ticket_id (some (chain_root_of ticket))

-- `findFirst({ where: { ...inChainWith(parent), state: { not: closed } } })`
unfoldable pub find_live : TenantContext → Ticket → List Ticket → Option Ticket
unfolding is_live
find_live ctx parent [] = none
find_live ctx parent (t ∷ ts) =
    let rest = find_live ctx parent ts in
    if is_visible ctx t && in_chain_with parent t && is_live t then some t else rest

-- What other transactions commit while a reply is taken: before the search for a live ticket of
-- the chain, before a ticket is reopened or created, in the middle of `transitionIn`, and before
-- the message is posted.
pub record Meanwhile : Type 0 where
  pub before_search : Db → Db
  pub before_write : Db → Db
  pub between : Db → Db
  pub before_post : Db → Db

-- What the arms of `targetFor` share: the id and the time of a row that is created, what other
-- transactions commit meanwhile, the context, the contact and the source of the reply.
module _ (id : String) (now : ℕ) (meanwhile : Meanwhile) (ctx : TenantContext)
    (p : ContactPrincipal) (source : TicketSource) where
  abbrev pub Targeted : Type 0
  Targeted = Result (Db × ReplyTarget)

  unfoldable pub spawn_input : Ticket → CreateTicketInput
  spawn_input parent = record {
    subject = parent.subject;
    contact_id = p.contact_id;
    source = source;
    spawned_from_ticket_id = some parent.id;
    slack_route = none;
  }

  -- `again` is the call of `targetFor` on the live ticket.
  unfoldable pub spawn_or_join_live :
      (Ticket → Db → Targeted) → Ticket → Db → Option Ticket → Targeted
  unfolding spawn_input
  spawn_or_join_live again parent db (some live) = again live db
  spawn_or_join_live again parent db none =
      catch_throw
        (create_in id now ctx (requester p) (spawn_input parent) (meanwhile.before_write db))
        rethrow_chain_conflict
      >>= λ r. ok (r.0, record { ticket = r.1; landing = spawn })

  unfoldable pub target_by : (Ticket → Db → Targeted) → Ticket → Db → ReplyOutcome → Targeted
  unfolding find_live
  target_by again addressed db append = ok (db, record { ticket = addressed; landing = append })
  target_by again addressed db reopen =
      transition_in now meanwhile.between ctx (requester p) addressed.id opened
        (meanwhile.before_write db)
      >>= λ r. ok (r.0, record { ticket = r.1; landing = reopen })
  target_by again addressed db spawn =
      let searched = meanwhile.before_search db in
      spawn_or_join_live again addressed searched (find_live ctx addressed searched.tickets)

  -- The fuel bounds how often a live ticket of the chain is turned to.
  unfoldable pub target_for : ℕ → Ticket → Db → Targeted
  unfolding reply_outcome_for
  target_for zero addressed db = throw primitive
  target_for (suc fuel) addressed db =
      target_by (λ live db'. target_for fuel live db') addressed db
        (reply_outcome_for addressed.state)
