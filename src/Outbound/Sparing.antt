-- ===== src/Outbound/Sparing.antt =====
-- The steps of the job of src/slack/slack-delivery.service.ts beside a delivered message.
use nivara_api_nestjs.Shared.{
  ◌∙◌, inr, none, inl, leb, some, ◌||◌, Bool-cases, refl, Bool, Option, [], ◌++◌, false, true, ◌≡◌,
  ◌∷◌, ℕ, String,
}
use nivara_api_nestjs.Domain.{Message}
use nivara_api_nestjs.Outbound.Delivery.{
  payload_string, token_for, deliver_claimed, deliver_message, deliver, fail_delivery,
  handle_message, handle, post_text, transient_error, permanent_error, find_message, message_ticket,
  posted, abandon, after_post, audited, put_back, record_post, settled_dead, JobContext, Channel,
  PostOutcome, SlackPost,
}
use nivara_api_nestjs.Outbound.Settling.{
  attempt_rows-Delivered, settle-Delivered, record_delivered-Delivered, StillDelivered, Delivered,
}
use nivara_api_nestjs.Outbound.Target.{SlackDestination, parse_slack_target}
use nivara_api_nestjs.Value.{Fields}
use nivara_api_nestjs.Errors.{no_cause, driver, ok, throw, Result, Thrown}
use nivara_api_nestjs.Outbound.Deliveries.{
  still_pending, given_up, settle, attempt_rows, record_delivered, find_delivery, any_claimable,
  is_of_message, Deliveries, OutboundDelivery,
}
use mathlib.Core.List.{[]}
use Prim.Native.String.{◌∷◌, String}
use nivara_api_nestjs.Outbound.Spared.{Spared, after, find_delivery-other, posts_for-other}

module _ (slack : SlackPost → PostOutcome) (between : Deliveries → Deliveries)
    (describe : Thrown → String) (target_error : String → String) (now : ℕ) (context : JobContext)
    (tenant message target : String) (n : ℕ) where
  settled_dead-Spared :
      (c : Channel) (r : Result Deliveries)
      → Spared tenant message target n c
      → StillDelivered tenant message target r
      → Spared tenant message target n
          (after (settled_dead slack between describe target_error now context c r))
  unfolding settled_dead
  settled_dead-Spared c (throw e) s v = s
  settled_dead-Spared c (ok ds) s v = record { stands = v; posts = s.posts }

  put_back-Spared :
      (c : Channel) (error : Thrown) (r : Result Deliveries)
      → Spared tenant message target n c
      → StillDelivered tenant message target r
      → Spared tenant message target n
          (after (put_back slack between describe target_error now context c error r))
  unfolding put_back
  put_back-Spared c error (throw e) s v = s
  put_back-Spared c error (ok ds) s v = record { stands = v; posts = s.posts }

  audited-Spared :
      (c : Channel) (d : OutboundDelivery) (ticket : Option String) (error : String)
      (r : Result Deliveries)
      → Spared tenant message target n c
      → StillDelivered tenant message target r
      → Spared tenant message target n
          (after (audited slack between describe target_error now context c d ticket error r))
  unfolding audited
  audited-Spared c d ticket error (throw e) s v = s
  audited-Spared c d ticket error (ok ds) s v = record { stands = v; posts = s.posts }

  abandon-Spared :
      (c : Channel) (d : OutboundDelivery) (error : String)
      → Spared tenant message target n c
      → Spared tenant message target n
          (after (abandon slack between describe target_error now context c d error))
  unfolding abandon
  abandon-Spared c d error s =
      audited-Spared c d (message_ticket (find_message context.tenant_id d.message_id c.messages))
        error (settle context.tenant_id d.id given_up error c.deliveries) s
        (settle-Delivered tenant message target context.tenant_id d.id given_up error c.deliveries
          s.stands)

  fail_delivery-Spared :
      (c : Channel) (d : OutboundDelivery) (permanent : Bool) (text : String) (error : Thrown)
      → Spared tenant message target n c
      → Spared tenant message target n (
          after (
            fail_delivery slack between describe target_error now context c d permanent text error))
  unfolding fail_delivery
  fail_delivery-Spared c d permanent text error s =
      elim (Bool-cases (permanent || leb context.max_attempts context.attempt)) [
        | inl over ↦ rw over (abandon-Spared c d text s)
        | inr again ↦ rw again (
            put_back-Spared c error (settle context.tenant_id d.id still_pending text c.deliveries)
              s
              (settle-Delivered tenant message target context.tenant_id d.id still_pending text
                c.deliveries s.stands))
      ]

  record_post-Spared :
      (c : Channel) (d : OutboundDelivery) (r : Result Deliveries)
      → Spared tenant message target n c
      → StillDelivered tenant message target r
      → Spared tenant message target n
          (after (record_post slack between describe target_error now context c d r))
  unfolding record_post
  record_post-Spared c d (throw e) s v = fail_delivery-Spared c d false (describe e) e s
  record_post-Spared c d (ok ds) s v = record { stands = v; posts = s.posts }

  after_post-Spared :
      (c : Channel) (d : OutboundDelivery) (outcome : PostOutcome)
      → Spared tenant message target n c
      → Spared tenant message target n
          (after (after_post slack between describe target_error now context c d outcome))
  unfolding after_post
  after_post-Spared c d (posted ts) s =
      record_post-Spared c d (record_delivered context.tenant_id d.id ts now c.deliveries) s (
        record_delivered-Delivered tenant message target context.tenant_id d.id ts now c.deliveries
          s.stands)
  after_post-Spared c d (permanent_error m) s =
      fail_delivery-Spared c d true m (driver none no_cause) s
  after_post-Spared c d (transient_error m) s =
      fail_delivery-Spared c d false m (driver none no_cause) s

  post_text-Spared :
      (c : Channel) (d : OutboundDelivery) (destination : SlackDestination) (body : String)
      → ((ds : Deliveries)
          → Delivered tenant message target ds
          → Delivered tenant message target (between ds))
      → is_of_message tenant message target d ≡ false
      → Spared tenant message target n c
      → Spared tenant message target n
          (after (post_text slack between describe target_error now context c d destination body))
  unfolding post_text
  post_text-Spared c d destination body keeps other s =
      let post : SlackPost = record {
        message_id = d.message_id;
        destination = destination;
        text = body;
        token = token_for context.tenant_id c.credentials;
      } in
      after_post-Spared
        (record c { deliveries = between c.deliveries; posts = c.posts ++ (d, post) ∷ [] }) d
        (slack post)
        (record {
          stands = keeps c.deliveries s.stands;
          posts = posts_for-other tenant message target d post c.posts other ∙ s.posts;
        })

  deliver_message-Spared :
      (c : Channel) (d : OutboundDelivery) (destination : SlackDestination) (m : Option Message)
      → ((ds : Deliveries)
          → Delivered tenant message target ds
          → Delivered tenant message target (between ds))
      → is_of_message tenant message target d ≡ false
      → Spared tenant message target n c
      → Spared tenant message target n (
          after (deliver_message slack between describe target_error now context c d destination m))
  unfolding deliver_message
  deliver_message-Spared c d destination none keeps other s =
      let why : String = "The Message was deleted before it could be delivered." in
      settled_dead-Spared c (settle context.tenant_id d.id given_up why c.deliveries) s (
        settle-Delivered tenant message target context.tenant_id d.id given_up why c.deliveries
          s.stands)
  deliver_message-Spared c d destination (some m) keeps other s =
      post_text-Spared c d destination m.body keeps other s

  deliver-Spared :
      (c : Channel) (d : OutboundDelivery) (destination : Option SlackDestination)
      → ((ds : Deliveries)
          → Delivered tenant message target ds
          → Delivered tenant message target (between ds))
      → is_of_message tenant message target d ≡ false
      → Spared tenant message target n c
      → Spared tenant message target n
          (after (deliver slack between describe target_error now context c d destination))
  unfolding deliver
  deliver-Spared c d none keeps other s = abandon-Spared c d (target_error d.target) s
  deliver-Spared c d (some destination) keeps other s =
      deliver_message-Spared c d destination
        (find_message context.tenant_id d.message_id c.messages) keeps other s

  deliver_claimed-Spared :
      (c : Channel) (target' : String) (found : Option OutboundDelivery)
      → ((ds : Deliveries)
          → Delivered tenant message target ds
          → Delivered tenant message target (between ds))
      → ((d : OutboundDelivery) → found ≡ some d → is_of_message tenant message target d ≡ false)
      → Spared tenant message target n c
      → Spared tenant message target n
          (after (deliver_claimed slack between describe target_error now context c target' found))
  unfolding deliver_claimed
  deliver_claimed-Spared c target' none keeps other s = s
  deliver_claimed-Spared c target' (some d) keeps other s =
      deliver-Spared c d (parse_slack_target target') keeps (other d refl) s

  handle_message-Spared :
      (message' target' : String) (c : Channel)
      → ((ds : Deliveries)
          → Delivered tenant message target ds
          → Delivered tenant message target (between ds))
      → Spared tenant message target n c
      → Spared tenant message target n (
          after (handle_message slack between describe target_error now context message' target' c))
  unfolding handle_message
  handle_message-Spared message' target' c keeps s =
      let t = context.tenant_id in
      let ds = attempt_rows t message' target' c.deliveries in
      elim (Bool-cases (any_claimable t message' target' c.deliveries)) [
        | inr over ↦ rw over s
        | inl claimed ↦ rw claimed (
            deliver_claimed-Spared (record c { deliveries = ds }) target'
              (find_delivery t message' target' ds) keeps
              (λ d f.
                find_delivery-other tenant message target t message' target' c.deliveries d s.stands
                  claimed f)
              (record {
                stands =
                    attempt_rows-Delivered tenant message target t message' target' c.deliveries
                      s.stands;
                posts = s.posts;
              }))
      ]

  -- The job of a delivery, whatever its payload.
  pub handle-Spared :
      (payload : Fields) (c : Channel)
      → ((ds : Deliveries)
          → Delivered tenant message target ds
          → Delivered tenant message target (between ds))
      → Spared tenant message target n c
      → Spared tenant message target n
          (after (handle slack between describe target_error now context payload c))
  unfolding handle
  handle-Spared payload c keeps s =
      handle_message-Spared (payload_string payload "messageId") (payload_string payload "target") c
        keeps s
