-- ===== src/Tests/Posts.antt =====
-- Runs of the dispatch of src/outbound and of the deliveries of src/slack.
use nivara_api_nestjs.Tickets.Rows.{Db}
use nivara_api_nestjs.Outbound.Deliveries.{is_delivered, has_delivery, OutboundDelivery, delivered}
use nivara_api_nestjs.Principal.Context.{kind_user}
use nivara_api_nestjs.Value.{field, end, text}
use nivara_api_nestjs.Outbound.Once.{posted_once, run_all, Run}
use nivara_api_nestjs.Outbound.Spared.{posts_for}
use nivara_api_nestjs.Shared.{refl, none, ◌≡◌, [], some, ◌∷◌, String}
use nivara_api_nestjs.Outbound.Dispatch.{Outbox, new_delivery}
use nivara_api_nestjs.Outbound.Settling.{Delivered, any_undelivered}
use Prim.Native.String.{[], String}
use nivara_api_nestjs.Outbound.Delivery.{posted, Channel}
use nivara_api_nestjs.Scheduler.Queue.{enqueue}
use nivara_api_nestjs.Tests.Samples.{desk, open_ticket, ticket_id, acme}
use nivara_api_nestjs.Domain.{Message, Ticket}
use Prim.Native.String

abbrev routed_ticket : Ticket
routed_ticket = record open_ticket { slack_channel_id = some "C1"; slack_thread_ts = some "1.2" }

abbrev routed_desk : Db
routed_desk = record desk { tickets = routed_ticket ∷ [] }

abbrev answer : Message
answer = record {
  id = "m-1";
  tenant_id = acme;
  ticket_id = ticket_id;
  body = "Have you tried turning it off?";
  author_kind = kind_user;
  author_id = some "u-1";
  created_at = 20;
}

-- A stand-in for the JSON of a payload.
abbrev pair_text : String → String → String
pair_text message target = String.◌++◌ message (String.◌++◌ " " target)

abbrev nothing_sent : Outbox
nothing_sent = record { deliveries = []; jobs = [] }

abbrev sent_delivery : OutboundDelivery
sent_delivery = new_delivery "d-1" answer (record { source = "slack"; target = "C1/1.2" })

abbrev sent_once : Outbox
unfolding new_delivery enqueue
sent_once = record {
  deliveries = sent_delivery ∷ [];
  jobs =
      enqueue "j-1" acme 20
        (record {
          kind = "outbound.delivery";
          payload = "m-1 C1/1.2";
          run_after = none;
          max_attempts = none;
        })
        [];
}

abbrev delivered_row : OutboundDelivery
delivered_row = record {
  id = "d-1";
  tenant_id = acme;
  source = "slack";
  message_id = "m-1";
  target = "C1/1.2";
  status = delivered;
  external_id = some "1.3";
  attempts = 1;
  last_error = none;
  delivered_at = some 40;
}

abbrev channel : Channel
channel = record {
  deliveries = delivered_row ∷ [];
  messages = answer ∷ [];
  credentials = [];
  audit = [];
  posts = [];
  announced = [];
}

-- The job of the delivery, handed out once more.
abbrev late_run : Run
late_run = record {
  slack = λ post. posted "1.4";
  between = λ ds. ds;
  describe = λ e. "error";
  target_error = λ t. "no destination";
  now = 50;
  context = record { tenant_id = acme; attempt = 2; max_attempts = 5 };
  payload = field "messageId" (text "m-1") (field "target" (text "C1/1.2") end);
}

posted_once_example :
    (Delivered acme "m-1" "C1/1.2" (run_all (late_run ∷ []) channel).deliveries)
    × (posts_for acme "m-1" "C1/1.2" (run_all (late_run ∷ []) channel).posts
        ≡ posts_for acme "m-1" "C1/1.2" channel.posts)
unfolding has_delivery any_undelivered is_delivered
posted_once_example =
    posted_once acme "m-1" "C1/1.2" (late_run ∷ []) channel ((λ ds v. v), tt)
      (record { held = refl; settled = refl })
