-- ===== src/Outbound/Dispatch.antt =====
-- src/outbound/outbound-dispatch.service.ts, in a transaction whose context is not a contact's.
use nivara_api_nestjs.Shared.{
  [], ◌∷◌, ◌++◌, List, ℕ, ◌||◌, false, str_eq, if◌then◌else◌, none, true, Bool, some, Option,
  String,
}
use Prim.Native.String.{[], String}
use nivara_api_nestjs.Outbound.Deliveries.{create_delivery, Deliveries, OutboundDelivery, pending}
use nivara_api_nestjs.Tickets.Rows.{find_ticket, Db}
use nivara_api_nestjs.Errors.{ok, throw, Result, is_unique_violation}
use nivara_api_nestjs.Principal.Context.{
  kind_system, kind_service, TenantContext, kind_user, kind_contact, ActorKind,
}
use nivara_api_nestjs.Scheduler.Queue.{Job, enqueue}
use nivara_api_nestjs.Domain.{Message, Ticket}
use mathlib.Core.Option.{none}
use nivara_api_nestjs.Outbound.Target.{slack_target}

pub record ReplyRoute : Type 0 where
  pub source : String
  pub target : String

-- A column that is null or empty is falsy.
unfoldable pub route_of : Option String → Option String → Option ReplyRoute
unfolding slack_target
route_of (some channel_id) (some thread_ts) =
    if str_eq channel_id "" || str_eq thread_ts ""
    then none
    else some (record { source = "slack"; target = slack_target channel_id thread_ts })
route_of _ _ = none

unfoldable pub route_for : Option Ticket → Option ReplyRoute
unfolding route_of
route_for none = none
route_for (some t) = route_of t.slack_channel_id t.slack_thread_ts

unfoldable pub new_delivery : String → Message → ReplyRoute → OutboundDelivery
new_delivery id message route = record {
  id = id;
  tenant_id = message.tenant_id;
  source = route.source;
  message_id = message.id;
  target = route.target;
  status = pending;
  external_id = none;
  attempts = 0;
  last_error = none;
  delivered_at = none;
}

unfoldable pub is_contact : ActorKind → Bool
is_contact kind_contact = true
is_contact kind_user = false
is_contact kind_service = false
is_contact kind_system = false

-- The tables that a dispatch writes.
pub record Outbox : Type 0 where
  pub deliveries : Deliveries
  pub jobs : List Job

-- `payload_text` is the JSON of a payload with a message id and a target.
module _ (payload_text : String → String → String) (delivery_id job_id : String) (now : ℕ)
    (message : Message) where
  unfoldable pub enqueue_for : ReplyRoute → Outbox → Result Deliveries → Result Outbox
  unfolding is_unique_violation enqueue
  enqueue_for route box (throw e) = if is_unique_violation e then ok box else throw e
  enqueue_for route box (ok ds) = ok (record {
    deliveries = ds;
    jobs =
        enqueue job_id message.tenant_id now
          (record {
            kind = "outbound.delivery";
            payload = payload_text message.id route.target;
            run_after = none;
            max_attempts = none;
          })
          box.jobs;
  })

  unfoldable pub dispatch_on : Outbox → Option ReplyRoute → Result Outbox
  unfolding enqueue_for create_delivery new_delivery
  dispatch_on box none = ok box
  dispatch_on box (some route) =
      enqueue_for route box
        (create_delivery (new_delivery delivery_id message route) box.deliveries)

  unfoldable pub dispatch_in : TenantContext → Db → Outbox → Result Outbox
  unfolding dispatch_on route_for is_contact
  dispatch_in ctx db box =
      if is_contact message.author_kind
      then ok box
      else dispatch_on box (route_for (find_ticket ctx message.ticket_id db))

module _ (payload_text : String → String → String) (message : Message) where
  -- The tables with the delivery and its job.
  queued : (id job : String) → ℕ → Outbox → ReplyRoute → Outbox
  unfolding enqueue new_delivery
  queued id job now box route = record {
    deliveries = box.deliveries ++ new_delivery id message route ∷ [];
    jobs =
        enqueue job message.tenant_id now
          (record {
            kind = "outbound.delivery";
            payload = payload_text message.id route.target;
            run_after = none;
            max_attempts = none;
          })
          box.jobs;
  }
