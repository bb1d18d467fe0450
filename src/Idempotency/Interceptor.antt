-- ===== src/Idempotency/Interceptor.antt =====
-- src/idempotency/idempotency.interceptor.ts and src/idempotency/idempotency-scope.ts. The handler
-- is a function of the rest of the world, `fingerprint` is `requestFingerprint`, whose SHA-256 is
-- that of node:crypto; a `release` that is written is written before the next request.
use nivara_api_nestjs.Errors.{
  Thrown, idempotency_in_flight, idempotency_key_reused, malformed_request, no_cause, driver, fail,
  throw, ok, Result,
}
use nivara_api_nestjs.Idempotency.Claim.{
  fresh, in_flight, mismatch, replay, IdempotencyClaim, claim, Interference,
}
use nivara_api_nestjs.Shared.{
  str_eq, text_length, ltb, not, false, if◌then◌else◌, some, none, true, Option, trim, Bool, String,
  ℕ,
}
use nivara_api_nestjs.Principal.{
  visitor, machine, requester, staff, RequestPrincipal, system_context_for, tenant_context_for,
}
use nivara_api_nestjs.Idempotency.Records.{
  release, IdempotencyKey, Records, complete, IdempotentResponse,
}
use nivara_api_nestjs.Principal.Context.{TenantContext}
use Prim.Native.Nat.{ℕ}
use Prim.Native.String.{String}
use nivara_api_nestjs.RateLimit.Keys.{principal_ref}
use Prim.Native.String

-- `request.headers['idempotency-key']`
pub data Header : Type 0 where
  absent repeated : Header
  single : String → Header

pub record AuthenticatedRequest (B : Type 0) : Type 0 where
  pub is_http : Bool
  pub method : String
  pub original_url : String
  pub key_header : Header
  pub principal : Option RequestPrincipal
  pub body : Option B

-- The status and the body that are sent, and whether the header `Idempotency-Replayed` is set.
pub record Reply (B : Type 0) : Type 0 where
  pub status : ℕ
  pub body : Option B
  pub replayed : Bool

abbrev pub max_key_length : ℕ
max_key_length = 255

unfoldable pub http_scope : RequestPrincipal → String → String → String
unfolding principal_ref
http_scope p method path =
    String.◌++◌ (principal_ref p) (String.◌++◌ "|" (String.◌++◌ method (String.◌++◌ " " path)))

-- `none` is the InvalidTenantContextError.
unfoldable pub idempotency_context_for : RequestPrincipal → Option TenantContext
unfolding tenant_context_for system_context_for
idempotency_context_for (staff p) = tenant_context_for (staff p)
idempotency_context_for (requester p) = tenant_context_for (requester p)
idempotency_context_for (machine p) = tenant_context_for (machine p)
idempotency_context_for (visitor p) = elim p.contact_id [
  | none ↦ some (system_context_for p.tenant_id)
  | some id ↦ tenant_context_for (visitor p)
]

unfoldable pub header_value : Header → Result (Option String)
unfolding trim
header_value absent = ok none
header_value repeated = throw (fail malformed_request)
header_value (single raw) =
    let value = trim raw in if str_eq value "" then ok none else ok (some value)

-- What becomes of the two writes that settle a claim: the error of a `complete` that fails, and
-- whether a `release` is written.
pub record Writes : Type 0 where
  pub completes : Option Thrown
  pub releases : Bool

module _ {B W : Type 0} (others : Interference B) (fingerprint : Option B → String)
    (writes : Writes) (handler : W → W × Result (IdempotentResponse B)) where
  abbrev pub Handled : Type 0
  Handled = (Records B × W) × Result (Reply B)

  unfoldable pub sent : Result (IdempotentResponse B) → Result (Reply B)
  sent (throw e) = throw e
  sent (ok r) = ok (record { status = r.code; body = r.body; replayed = false })

  -- `next.handle()`
  unfoldable pub pass : Records B → W → Handled
  unfolding sent
  pass rs w = ((rs, (handler w).0), sent (handler w).1)

  unfoldable pub released : TenantContext → IdempotencyKey → Records B → Records B
  unfolding release
  released context ref rs = if writes.releases then release context ref rs else rs

  -- An error of `complete` is met by the `tap` as one of the handler is.
  unfoldable pub completed :
      TenantContext
      → IdempotencyKey
      → Records B
      → W
      → IdempotentResponse B
      → Option Thrown
      → Handled
  unfolding complete released
  completed context ref rs w r none = (
    (complete context ref (some r) rs, w),
    ok (record { status = r.code; body = r.body; replayed = false }),
  )
  completed context ref rs w r (some e) = ((released context ref rs, w), throw e)

  unfoldable pub settle :
      TenantContext → IdempotencyKey → Records B → W × Result (IdempotentResponse B) → Handled
  unfolding completed released
  settle context ref rs (w, throw e) = ((released context ref rs, w), throw e)
  settle context ref rs (w, ok r) = completed context ref rs w r writes.completes

  unfoldable pub replay_reply : Option (IdempotentResponse B) → Reply B
  replay_reply none = record { status = 200; body = none; replayed = true }
  replay_reply (some r) = record { status = r.code; body = r.body; replayed = true }

  unfoldable pub respond :
      TenantContext
      → IdempotencyKey
      → Records B
      → W
      → Result (Records B × IdempotencyClaim B)
      → Handled
  unfolding settle replay_reply
  respond context ref rs w (throw e) = ((rs, w), throw e)
  respond context ref rs w (ok (rs', mismatch)) = ((rs', w), throw (fail idempotency_key_reused))
  respond context ref rs w (ok (rs', in_flight)) = ((rs', w), throw (fail idempotency_in_flight))
  respond context ref rs w (ok (rs', replay stored)) = ((rs', w), ok (replay_reply stored))
  respond context ref rs w (ok (rs', fresh)) = settle context ref rs' (handler w)

  unfoldable pub claim_in :
      AuthenticatedRequest B → IdempotencyKey → Records B → W → Option TenantContext → Handled
  unfolding respond claim
  claim_in request ref rs w none = ((rs, w), throw (driver none no_cause))
  claim_in request ref rs w (some context) =
      respond context ref rs w (claim others context ref (some (fingerprint request.body)) rs)

  unfoldable pub claim_for :
      AuthenticatedRequest B → String → Records B → W → Option RequestPrincipal → Handled
  unfolding pass claim_in http_scope idempotency_context_for
  claim_for request key rs w none = pass rs w
  claim_for request key rs w (some p) =
      let ref : IdempotencyKey = record {
        scope = http_scope p request.method request.original_url;
        key = key;
      } in
      claim_in request ref rs w (idempotency_context_for p)

  unfoldable pub with_header :
      AuthenticatedRequest B → Records B → W → Result (Option String) → Handled
  unfolding pass claim_for
  with_header request rs w (throw e) = ((rs, w), throw e)
  with_header request rs w (ok none) = pass rs w
  with_header request rs w (ok (some key)) =
      if ltb max_key_length (text_length key)
      then ((rs, w), throw (fail malformed_request))
      else claim_for request key rs w request.principal

  unfoldable pub intercept : AuthenticatedRequest B → Records B → W → Handled
  unfolding pass with_header header_value
  intercept request rs w =
      if not request.is_http
      then pass rs w
      else if not (str_eq request.method "POST")
      then pass rs w
      else with_header request rs w (header_value request.key_header)
