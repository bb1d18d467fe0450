-- ===== src/Conversation/Replying.antt =====
-- src/conversation/contact-reply.service.ts: `reply`, and what is announced of it.
use mathlib.Core.Option.{none}
use nivara_api_nestjs.Conversation.{
  Meanwhile, ok, spawn, reopen, some, append, throw, Option, ReplyTarget, requester, Result,
  TenantContext, target_for, TicketSource, ContactPrincipal, List, ReplyOutcome,
}
use nivara_api_nestjs.Errors.{ok, ◌>>=◌, not_found, fail, throw, Result}
use nivara_api_nestjs.Shared.{none, Option, [], ◌∷◌, List, String, ℕ}
use nivara_api_nestjs.Realtime.Service.{created, updated, message, Announcement}
use nivara_api_nestjs.Tickets.Rows.{find_ticket, Db}
use Prim.Native.String.{[], String}
use nivara_api_nestjs.Principal.{requester, ContactPrincipal}
use nivara_api_nestjs.Principal.Context.{TenantContext}
use nivara_api_nestjs.Conversation.Posting.{post_in, PostIds}
use nivara_api_nestjs.Tickets.TicketService.{with_tenant}
use nivara_api_nestjs.Domain.{TicketSource, Message, Ticket}
use nivara_api_nestjs.Outbound.Dispatch.{Outbox}
use Prim.Native.Nat.{ℕ}

pub record ContactReply : Type 0 where
  pub ticket : Ticket
  pub message : Message

unfoldable pub announcements : ReplyOutcome → Ticket → Message → List Announcement
announcements append t m = message m ∷ []
announcements reopen t m = updated t ∷ message m ∷ []
announcements spawn t m = created t ∷ message m ∷ []

abbrev pub Replied : Type 0
Replied = (Db × Outbox) × ReplyOutcome × ContactReply

-- The calls that `targetFor` may need are two.
abbrev pub reply_calls : ℕ
reply_calls = 2

-- What the reply reads or draws: the id of a ticket that is created, those of the message, what
-- other transactions commit, the contact, the source and the text.
module _ (payload_text : String → String → String) (new_ticket_id : String) (ids : PostIds)
    (now : ℕ) (meanwhile : Meanwhile) (p : ContactPrincipal) (source : TicketSource)
    (body : String) where
  unfoldable pub answer_on : TenantContext → Outbox → Db × ReplyTarget → Result Replied
  unfolding post_in
  answer_on ctx box (db, target) =
      post_in payload_text ids now ctx (requester p) target.ticket.id body
        (meanwhile.before_post db) box
      >>= λ posted. ok (
        (posted.0, posted.1),
        target.landing,
        record { ticket = target.ticket; message = posted.2 },
      )

  unfoldable pub reply_to : TenantContext → Db → Outbox → Option Ticket → Result Replied
  unfolding answer_on target_for
  reply_to ctx db box none = throw (fail not_found)
  reply_to ctx db box (some addressed) =
      target_for new_ticket_id now meanwhile ctx p source reply_calls addressed db
      >>= answer_on ctx box

  unfoldable pub reply : (ticket_id : String) → Db → Outbox → Result (Replied × List Announcement)
  unfolding reply_to with_tenant announcements
  reply ticket_id db box =
      with_tenant (requester p) (λ ctx. reply_to ctx db box (find_ticket ctx ticket_id db)) >>= λ r.
      ok (r, announcements r.1 r.2.ticket r.2.message)
