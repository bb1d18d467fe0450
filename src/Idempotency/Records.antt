-- ===== src/Idempotency/Records.antt =====
-- The table `idempotency_record` of prisma/schema.prisma, and the statements of
-- src/idempotency/idempotency.service.ts and src/idempotency/idempotency-retention.sweep.ts on it.
use nivara_api_nestjs.Shared.{
  ◌++◌, [], if◌then◌else◌, leb, ◌+◌, ◌||◌, false, none, some, str_eq, true, ◌&&◌, ◌∷◌, Bool, List,
  Option, String, ℕ,
}
use nivara_api_nestjs.Errors.{ok, no_cause, driver, throw, Result}
use mathlib.Core.List.{[]}
use Prim.Native.String.{◌∷◌, String}
use nivara_api_nestjs.Principal.Context.{Actor, TenantContext}
use Prim.Native.Nat.{ℕ}

pub data IdempotencyStatus : Type 0 where
  in_progress completed : IdempotencyStatus

unfoldable pub is_in_progress : IdempotencyStatus → Bool
is_in_progress in_progress = true
is_in_progress completed = false

-- `idempotency_retention()`, 24 hours in milliseconds
abbrev pub idempotency_retention : ℕ
idempotency_retention = 86400000

pub record IdempotencyRecord (B : Type 0) : Type 0 where
  pub tenant_id : String
  pub scope : String
  pub key : String
  pub request_hash : String
  pub status : IdempotencyStatus
  pub response_code : Option ℕ
  pub response_body : Option B
  pub actor : Actor
  pub created_at : ℕ
  pub expires_at : ℕ

pub record IdempotencyKey : Type 0 where
  pub scope : String
  pub key : String

-- A body is `none` where it is undefined.
pub record IdempotentResponse (B : Type 0) : Type 0 where
  pub code : ℕ
  pub body : Option B

abbrev pub Records : Type 0 → Type 0
Records B = List (IdempotencyRecord B)

unfoldable pub is_for : {B : Type 0} → String → IdempotencyKey → IdempotencyRecord B → Bool
is_for tenant ref r = str_eq r.tenant_id tenant && str_eq r.scope ref.scope && str_eq r.key ref.key

unfoldable pub has_record : {B : Type 0} → String → IdempotencyKey → Records B → Bool
unfolding is_for
has_record tenant ref [] = false
has_record tenant ref (r ∷ rs) = is_for tenant ref r || has_record tenant ref rs

unfoldable pub find_record :
    {B : Type 0} → String → IdempotencyKey → Records B → Option (IdempotencyRecord B)
unfolding is_for
find_record tenant ref [] = none
find_record tenant ref (r ∷ rs) =
    let rest = find_record tenant ref rs in if is_for tenant ref r then some r else rest

-- The columns that an insert and a reclaim write.
unfoldable pub claimed_record :
    {B : Type 0} → TenantContext → IdempotencyKey → String → ℕ → IdempotencyRecord B
claimed_record context ref request_hash now = record {
  tenant_id = context.tenant_id;
  scope = ref.scope;
  key = ref.key;
  request_hash = request_hash;
  status = in_progress;
  response_code = none;
  response_body = none;
  actor = context.actor;
  created_at = now;
  expires_at = now + idempotency_retention;
}

unfoldable pub create_record :
    {B : Type 0} → TenantContext → IdempotencyKey → String → ℕ → Records B → Result (Records B)
unfolding claimed_record
create_record context ref request_hash now rs =
    if has_record context.tenant_id ref rs
    then throw (driver (some "P2002") no_cause)
    else ok (rs ++ claimed_record context ref request_hash now ∷ [])

unfoldable pub is_expired_for :
    {B : Type 0} → String → IdempotencyKey → ℕ → IdempotencyRecord B → Bool
unfolding is_for
is_expired_for tenant ref now r = is_for tenant ref r && leb r.expires_at now

unfoldable pub any_expired : {B : Type 0} → String → IdempotencyKey → ℕ → Records B → Bool
unfolding is_expired_for
any_expired tenant ref now [] = false
any_expired tenant ref now (r ∷ rs) =
    is_expired_for tenant ref now r || any_expired tenant ref now rs

-- The `UPDATE` keeps the row and writes every column but its key, which is that of the claim.
unfoldable pub reclaim_records :
    {B : Type 0} → TenantContext → IdempotencyKey → String → ℕ → Records B → Records B
unfolding is_expired_for claimed_record
reclaim_records context ref request_hash now [] = []
reclaim_records context ref request_hash now (r ∷ rs) =
    (if is_expired_for context.tenant_id ref now r
      then claimed_record context ref request_hash now
      else r)
    ∷ reclaim_records context ref request_hash now rs

unfoldable pub is_pending_for : {B : Type 0} → String → IdempotencyKey → IdempotencyRecord B → Bool
unfolding is_for is_in_progress
is_pending_for tenant ref r = is_for tenant ref r && is_in_progress r.status

-- `response.body ?? undefined`: an undefined value is no part of the update.
abbrev pub stored_body : {B : Type 0} → Option B → Option B → Option B
stored_body old none = old
stored_body old (some b) = some b

unfoldable pub completed_record :
    {B : Type 0} → Option (IdempotentResponse B) → IdempotencyRecord B → IdempotencyRecord B
completed_record none r = record r {
  status = completed;
  response_code = none;
  response_body = none;
}
completed_record (some response) r = record r {
  status = completed;
  response_code = some response.code;
  response_body = stored_body r.response_body response.body;
}

unfoldable pub complete :
    {B : Type 0}
    → TenantContext
    → IdempotencyKey
    → Option (IdempotentResponse B)
    → Records B
    → Records B
unfolding is_pending_for completed_record
complete context ref response [] = []
complete context ref response (r ∷ rs) =
    (if is_pending_for context.tenant_id ref r then completed_record response r else r)
    ∷ complete context ref response rs

unfoldable pub release : {B : Type 0} → TenantContext → IdempotencyKey → Records B → Records B
unfolding is_pending_for
release context ref [] = []
release context ref (r ∷ rs) =
    let rest = release context ref rs in
    if is_pending_for context.tenant_id ref r then rest else r ∷ rest

-- The sweep in the transaction of one tenant.
unfoldable pub sweep_records : {B : Type 0} → String → ℕ → Records B → Records B
sweep_records tenant now [] = []
sweep_records tenant now (r ∷ rs) =
    let rest = sweep_records tenant now rs in
    if str_eq r.tenant_id tenant && leb r.expires_at now then rest else r ∷ rest
