-- ===== src/Outbound/Deliveries.antt =====
-- The table `outbound_delivery` of prisma/schema.prisma, with its unique index and its check, and the
-- statements of src/slack/slack-delivery.service.ts on it.
use nivara_api_nestjs.Shared.{
  ◌++◌, [], none, not, ◌||◌, Option, false, if◌then◌else◌, some, str_eq, true, ℕ, ◌&&◌, ◌∷◌, Bool,
  List, String, ◌+◌,
}
use nivara_api_nestjs.Errors.{cause_code, ok, no_cause, driver, throw, Result}
use mathlib.Core.List.{[]}
use Prim.Native.String.{◌∷◌, String}

pub data OutboundDeliveryStatus : Type 0 where
  pending delivered dead : OutboundDeliveryStatus

unfoldable pub is_pending : OutboundDeliveryStatus → Bool
is_pending pending = true
is_pending delivered = false
is_pending dead = false

unfoldable pub is_delivered : OutboundDeliveryStatus → Bool
is_delivered delivered = true
is_delivered pending = false
is_delivered dead = false

pub record OutboundDelivery : Type 0 where
  pub id : String
  pub tenant_id : String
  pub source : String
  pub message_id : String
  pub target : String
  pub status : OutboundDeliveryStatus
  pub external_id : Option String
  pub attempts : ℕ
  pub last_error : Option String
  pub delivered_at : Option ℕ

abbrev pub Deliveries : Type 0
Deliveries = List OutboundDelivery

unfoldable pub is_of_message : (tenant message target : String) → OutboundDelivery → Bool
is_of_message tenant message target d =
    str_eq d.tenant_id tenant && str_eq d.message_id message && str_eq d.target target

unfoldable pub has_delivery : (tenant message target : String) → Deliveries → Bool
unfolding is_of_message
has_delivery tenant message target [] = false
has_delivery tenant message target (d ∷ ds) =
    is_of_message tenant message target d || has_delivery tenant message target ds

unfoldable pub create_delivery : OutboundDelivery → Deliveries → Result Deliveries
create_delivery d ds =
    if has_delivery d.tenant_id d.message_id d.target ds
    then throw (driver (some "P2002") no_cause)
    else ok (ds ++ d ∷ [])

-- `updateMany({ where: { messageId, target, status: 'pending' }, data: { attempts: { increment: 1 }
-- } })`: whether a row is written, and the rows afterwards
unfoldable pub is_claimable_for : (tenant message target : String) → OutboundDelivery → Bool
unfolding is_of_message is_pending
is_claimable_for tenant message target d =
    is_of_message tenant message target d && is_pending d.status

unfoldable pub any_claimable : (tenant message target : String) → Deliveries → Bool
unfolding is_claimable_for
any_claimable tenant message target [] = false
any_claimable tenant message target (d ∷ ds) =
    is_claimable_for tenant message target d || any_claimable tenant message target ds

abbrev pub attempted : OutboundDelivery → OutboundDelivery
attempted d = record d { attempts = d.attempts + 1 }

unfoldable pub attempt_rows : (tenant message target : String) → Deliveries → Deliveries
unfolding is_claimable_for
attempt_rows tenant message target [] = []
attempt_rows tenant message target (d ∷ ds) =
    (if is_claimable_for tenant message target d then attempted d else d)
    ∷ attempt_rows tenant message target ds

unfoldable pub find_delivery :
    (tenant message target : String) → Deliveries → Option OutboundDelivery
unfolding is_of_message
find_delivery tenant message target [] = none
find_delivery tenant message target (d ∷ ds) =
    let rest = find_delivery tenant message target ds in
    if is_of_message tenant message target d then some d else rest

unfoldable pub has_id : (tenant id : String) → OutboundDelivery → Bool
has_id tenant id d = str_eq d.tenant_id tenant && str_eq d.id id

unfoldable pub any_id : (tenant id : String) → Deliveries → Bool
unfolding has_id
any_id tenant id [] = false
any_id tenant id (d ∷ ds) = has_id tenant id d || any_id tenant id ds

-- `settle` writes a status other than delivered and leaves `delivered_at`, which the check refuses
-- on a delivered row.
unfoldable pub any_delivered_id : (tenant id : String) → Deliveries → Bool
unfolding has_id is_delivered
any_delivered_id tenant id [] = false
any_delivered_id tenant id (d ∷ ds) =
    has_id tenant id d && is_delivered d.status || any_delivered_id tenant id ds

unfoldable pub set_rows :
    (tenant id : String) → (OutboundDelivery → OutboundDelivery) → Deliveries → Deliveries
unfolding has_id
set_rows tenant id set [] = []
set_rows tenant id set (d ∷ ds) =
    (if has_id tenant id d then set d else d) ∷ set_rows tenant id set ds

pub data Unsettled : Type 0 where
  still_pending given_up : Unsettled

abbrev pub status_of : Unsettled → OutboundDeliveryStatus
status_of still_pending = pending
status_of given_up = dead

abbrev pub unsettled : Unsettled → String → OutboundDelivery → OutboundDelivery
unsettled status error d = record d { status = status_of status; last_error = some error }

unfoldable pub settle : (tenant id : String) → Unsettled → String → Deliveries → Result Deliveries
unfolding any_id any_delivered_id set_rows
settle tenant id status error ds =
    if not (any_id tenant id ds)
    then throw (driver (some "P2025") no_cause)
    else if any_delivered_id tenant id ds
    then throw (driver none (cause_code (some "23514")))
    else ok (set_rows tenant id (unsettled status error) ds)

abbrev pub recorded : String → ℕ → OutboundDelivery → OutboundDelivery
recorded external_id now d = record d {
  status = delivered;
  delivered_at = some now;
  external_id = some external_id;
  last_error = none;
}

unfoldable pub record_delivered :
    (tenant id external_id : String) → ℕ → Deliveries → Result Deliveries
unfolding any_id set_rows
record_delivered tenant id external_id now ds =
    if not (any_id tenant id ds)
    then throw (driver (some "P2025") no_cause)
    else ok (set_rows tenant id (recorded external_id now) ds)
