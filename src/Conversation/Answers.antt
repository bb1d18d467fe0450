-- ===== src/Conversation/Answers.antt =====
-- What an accepted reply of src/conversation/contact-reply.service.ts has done.
use nivara_api_nestjs.Shared.{[], none, ◌∷◌, some, ◌++◌, Option, ◌≡◌, ℕ, String}
use nivara_api_nestjs.Conversation.Landing.{Lands, Stands}
use nivara_api_nestjs.Conversation.{Meanwhile, target_for}
use nivara_api_nestjs.Conversation.Replying.{reply_calls, Replied}
use nivara_api_nestjs.Conversation.Posting.{stamped, Posted, PostIds}
use nivara_api_nestjs.Principal.{ContactPrincipal, tenant_of, RequestPrincipal}
use nivara_api_nestjs.Principal.Context.{kind_contact, contact, TenantContext}
use nivara_api_nestjs.Domain.{TicketSource, Ticket}
use nivara_api_nestjs.Outbound.Dispatch.{dispatch_in, Outbox}
use nivara_api_nestjs.Errors.{ok}
use nivara_api_nestjs.Tickets.Rows.{find_ticket, Db}
use Prim.Native.String.{[], String}
use mathlib.Core.Option.{none}

-- What is posted.
pub record PostedAs (payload_text : String → String → String) (ids : PostIds) (now : ℕ)
    (ctx : TenantContext) (p : RequestPrincipal) (ticket_id body : String) (db : Db) (box : Outbox)
    (posted : Posted) : Type 0 where
  pub row : posted.2 ≡ stamped ids.message_id now ctx (tenant_of p) ticket_id body
  pub appended : posted.0.messages ≡ db.messages ++ posted.2 ∷ []
  pub dispatch :
      dispatch_in payload_text ids.delivery_id ids.job_id now posted.2 ctx posted.0 box
      ≡ ok posted.1

module _ (payload_text : String → String → String) (new_ticket_id : String) (ids : PostIds)
    (now : ℕ) (meanwhile : Meanwhile) (p : ContactPrincipal) (source : TicketSource)
    (body : String) where
  abbrev pub reply_context : TenantContext
  reply_context = record { tenant_id = p.tenant_id; actor = contact p.contact_id }

  -- A reply that is accepted: `met` are the tables in which `targetFor` left it, to which other
  -- transactions committed before the message was inserted.
  pub record Accepted (ticket_id : String) (db : Db) (box : Outbox) (out : Replied) : Type 0 where
    pub addressed : Ticket
    pub met : Db
    pub found : find_ticket reply_context ticket_id db ≡ some addressed
    pub targeted :
        target_for new_ticket_id now meanwhile reply_context p source reply_calls addressed db
        ≡ ok (met, record { ticket = out.2.ticket; landing = out.1 })
    pub lands : Lands addressed (record { ticket = out.2.ticket; landing = out.1 })
    pub stands : Stands reply_context met (record { ticket = out.2.ticket; landing = out.1 })
    pub inserted : out.0.0.messages ≡ (meanwhile.before_post met).messages ++ out.2.message ∷ []
    pub named : out.2.message.id ≡ ids.message_id
    pub on_it : out.2.message.ticket_id ≡ out.2.ticket.id
    pub text : out.2.message.body ≡ body
    pub author : out.2.message.author_kind ≡ kind_contact
    pub author_id : out.2.message.author_id ≡ some p.contact_id
    pub outbox : out.0.1 ≡ box
