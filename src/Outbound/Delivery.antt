-- ===== src/Outbound/Delivery.antt =====
-- src/slack/slack-delivery.service.ts. `slack` is the Slack client, whose token falls back to its
-- configuration, `between` is what other transactions commit while a message is posted, and
-- `describe` the text of an error, `target_error` that of a target that is no destination. A handler's own transactions are committed before it throws.
use nivara_api_nestjs.Outbound.Deliveries.{
  still_pending, find_delivery, attempt_rows, given_up, OutboundDelivery, any_claimable,
  record_delivered, settle, Deliveries,
}
use nivara_api_nestjs.Shared.{
  leb, ◌&&◌, not, str_eq, ◌||◌, false, if◌then◌else◌, Bool, [], true, ◌++◌, ◌∷◌, none, some, List,
  ℕ, Option, String,
}
use nivara_api_nestjs.Errors.{no_cause, driver, ok, throw, Result, Thrown}
use Prim.Native.String.{[], ◌∷◌, String}
use nivara_api_nestjs.Outbound.Target.{parse_slack_target, SlackDestination}
use nivara_api_nestjs.Realtime.Events.{IntegrationFailureSnapshot}
use nivara_api_nestjs.Domain.{Message}
use nivara_api_nestjs.Value.{Fields, text, Value, get_field}

pub record SlackPost : Type 0 where
  pub message_id : String
  pub destination : SlackDestination
  pub text : String
  pub token : Option String

-- What `postMessage` returns or throws.
pub data PostOutcome : Type 0 where
  posted permanent_error transient_error : String → PostOutcome

-- The entry of the audit log with its metadata.
pub record FailureEntry : Type 0 where
  pub tenant_id : String
  pub target_id : String
  pub ticket_id : Option String
  pub source : String
  pub target : String
  pub message_id : String
  pub attempts : ℕ
  pub error : String

-- The tables, the posts that were made with the delivery that each is of, and the failures that were announced.
pub record Channel : Type 0 where
  pub deliveries : Deliveries
  pub messages : List Message
  pub credentials : List (String × String)
  pub audit : List FailureEntry
  pub posts : List (OutboundDelivery × SlackPost)
  pub announced : List IntegrationFailureSnapshot

pub record JobContext : Type 0 where
  pub tenant_id : String
  pub attempt : ℕ
  pub max_attempts : ℕ

abbrev pub payload_text : Value → String
payload_text (text s) = s
payload_text _ = ""

unfoldable pub payload_string : Fields → String → String
unfolding get_field
payload_string payload key = payload_text (get_field key payload)

unfoldable pub find_message : (tenant id : String) → List Message → Option Message
find_message tenant id [] = none
find_message tenant id (m ∷ ms) =
    let rest = find_message tenant id ms in
    if str_eq m.tenant_id tenant && str_eq m.id id then some m else rest

unfoldable pub token_for : String → List (String × String) → Option String
token_for tenant [] = none
token_for tenant (c ∷ cs) =
    let rest = token_for tenant cs in if str_eq c.0 tenant then some c.1 else rest

abbrev pub message_ticket : Option Message → Option String
message_ticket none = none
message_ticket (some m) = some m.ticket_id

-- A handler that throws makes the job retry.
pub data Handled : Type 0 where
  done : Channel → Handled
  threw : Channel → Thrown → Handled

module _ (slack : SlackPost → PostOutcome) (between : Deliveries → Deliveries)
    (describe : Thrown → String) (target_error : String → String) (now : ℕ)
    (context : JobContext) where
  abbrev pub entry_of : OutboundDelivery → Option String → String → FailureEntry
  entry_of d ticket error = record {
    tenant_id = context.tenant_id;
    target_id = d.id;
    ticket_id = ticket;
    source = d.source;
    target = d.target;
    message_id = d.message_id;
    attempts = d.attempts;
    error = error;
  }

  unfoldable pub announced_of :
      OutboundDelivery → Option String → String → List IntegrationFailureSnapshot
  announced_of d none error = []
  announced_of d (some ticket) error =
      record {
        ticket_id = ticket;
        message_id = d.message_id;
        source = d.source;
        target = d.target;
        error = error;
      }
      ∷ []

  unfoldable pub audited :
      Channel → OutboundDelivery → Option String → String → Result Deliveries → Handled
  unfolding announced_of
  audited c d ticket error (throw e) = threw c e
  audited c d ticket error (ok ds) = done (record c {
    deliveries = ds;
    audit = c.audit ++ entry_of d ticket error ∷ [];
    announced = c.announced ++ announced_of d ticket error;
  })

  -- `abandon`, with `settleAndAudit`
  unfoldable pub abandon : Channel → OutboundDelivery → String → Handled
  unfolding audited settle find_message
  abandon c d error =
      audited c d (message_ticket (find_message context.tenant_id d.message_id c.messages)) error
        (settle context.tenant_id d.id given_up error c.deliveries)

  unfoldable pub put_back : Channel → Thrown → Result Deliveries → Handled
  put_back c error (throw e) = threw c e
  put_back c error (ok ds) = threw (record c { deliveries = ds }) error

  unfoldable pub fail_delivery :
      Channel → OutboundDelivery → (permanent : Bool) → String → Thrown → Handled
  unfolding abandon put_back settle
  fail_delivery c d permanent message error =
      if permanent || leb context.max_attempts context.attempt
      then abandon c d message
      else put_back c error (settle context.tenant_id d.id still_pending message c.deliveries)

  unfoldable pub record_post : Channel → OutboundDelivery → Result Deliveries → Handled
  unfolding fail_delivery
  record_post c d (throw e) = fail_delivery c d false (describe e) e
  record_post c d (ok ds) = done (record c { deliveries = ds })

  -- The post is made, whatever comes of it.
  unfoldable pub after_post : Channel → OutboundDelivery → PostOutcome → Handled
  unfolding fail_delivery record_post record_delivered
  after_post c d (posted ts) =
      record_post c d (record_delivered context.tenant_id d.id ts now c.deliveries)
  after_post c d (permanent_error m) = fail_delivery c d true m (driver none no_cause)
  after_post c d (transient_error m) = fail_delivery c d false m (driver none no_cause)

  unfoldable pub post_text : Channel → OutboundDelivery → SlackDestination → String → Handled
  unfolding after_post token_for
  post_text c d destination body =
      let post : SlackPost = record {
        message_id = d.message_id;
        destination = destination;
        text = body;
        token = token_for context.tenant_id c.credentials;
      } in
      after_post (record c { deliveries = between c.deliveries; posts = c.posts ++ (d, post) ∷ [] })
        d (slack post)

  unfoldable pub settled_dead : Channel → Result Deliveries → Handled
  settled_dead c (throw e) = threw c e
  settled_dead c (ok ds) = done (record c { deliveries = ds })

  unfoldable pub deliver_message :
      Channel → OutboundDelivery → SlackDestination → Option Message → Handled
  unfolding settled_dead settle post_text
  deliver_message c d destination none = settled_dead c (
      settle context.tenant_id d.id given_up "The Message was deleted before it could be delivered."
        c.deliveries)
  deliver_message c d destination (some m) = post_text c d destination m.body

  unfoldable pub deliver : Channel → OutboundDelivery → Option SlackDestination → Handled
  unfolding abandon deliver_message find_message
  deliver c d none = abandon c d (target_error d.target)
  deliver c d (some destination) =
      deliver_message c d destination (find_message context.tenant_id d.message_id c.messages)

  unfoldable pub deliver_claimed : Channel → String → Option OutboundDelivery → Handled
  unfolding deliver parse_slack_target
  deliver_claimed c target none = done c
  deliver_claimed c target (some d) = deliver c d (parse_slack_target target)

  -- `claim`, and what follows
  unfoldable pub handle_message : (message target : String) → Channel → Handled
  unfolding any_claimable attempt_rows find_delivery deliver_claimed
  handle_message message target c =
      let ds = attempt_rows context.tenant_id message target c.deliveries in
      if not (any_claimable context.tenant_id message target c.deliveries)
      then done c
      else deliver_claimed (record c { deliveries = ds }) target
          (find_delivery context.tenant_id message target ds)

  unfoldable pub handle : Fields → Channel → Handled
  unfolding handle_message payload_string
  handle payload c =
      handle_message (payload_string payload "messageId") (payload_string payload "target") c
