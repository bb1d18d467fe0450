-- ===== src/Idempotency/Retries.antt =====
-- A request that is sent twice through src/idempotency/idempotency.interceptor.ts, with nothing in
-- between.
use nivara_api_nestjs.Shared.{
  if◌then◌else◌, none, ◌+◌, ◌<◌, text_length, ltb, str_eq, refl, some, [], ◌∷◌, false, ◌++◌, eq_iff,
  arith, true, ◌≡◌, String, Option, ℕ,
}
use nivara_api_nestjs.Errors.{throw, Thrown, is_unique_violation, Result, ok}
use nivara_api_nestjs.Idempotency.Interceptor.{
  completed, released, Writes, replay_reply, settle, idempotency_context_for, http_scope, respond,
  max_key_length, claim_in, claim_for, header_value, with_header, intercept, AuthenticatedRequest,
}
use nivara_api_nestjs.Idempotency.Claim.{
  stored_response, replay, verdict_of, judge, fresh, reclaim, claim_after, attempt_claim, claim,
  Interference,
}
use nivara_api_nestjs.Idempotency.Records.{
  stored_body, idempotency_retention, create_record, completed_record, is_in_progress,
  IdempotentResponse, Records, is_pending_for, complete, find_record, has_record, release,
  IdempotencyRecord, IdempotencyKey, claimed_record, is_for,
}
use nivara_api_nestjs.Idempotency.Histories.{any_expired-none}
use nivara_api_nestjs.Principal.{RequestPrincipal}
use Prim.Native.Nat.{ℕ}
use nivara_api_nestjs.Principal.Context.{TenantContext}

-- The table after a record is added for a key that has none.
module _ {B : Type 0} (context : TenantContext) (ref : IdempotencyKey) (c : IdempotencyRecord B)
    (mine : is_for context.tenant_id ref c ≡ true) where
  has_record-last : (rs : Records B) → has_record context.tenant_id ref (rs ++ c ∷ []) ≡ true
  unfolding has_record
  has_record-last [] = ground arith
  has_record-last (r ∷ rs) = ground (arith, has_record-last rs)

  find_record-last :
      (rs : Records B)
      → has_record context.tenant_id ref rs ≡ false
      → find_record context.tenant_id ref (rs ++ c ∷ []) ≡ some c
  unfolding find_record has_record
  find_record-last [] new = rw mine refl
  find_record-last (r ∷ rs) new =
      let other : is_for context.tenant_id ref r ≡ false = ground arith in
      rw other (find_record-last rs ground arith)

  complete-last :
      (response : Option (IdempotentResponse B)) (rs : Records B)
      → has_record context.tenant_id ref rs ≡ false
      → is_in_progress c.status ≡ true
      → complete context ref response (rs ++ c ∷ []) ≡ rs ++ completed_record response c ∷ []
  unfolding complete has_record is_pending_for
  complete-last response [] new pending = rw (mine, pending) refl
  complete-last response (r ∷ rs) new pending =
      let other : is_for context.tenant_id ref r ≡ false = ground arith in
      rw (other, complete-last response rs ground arith pending) refl

  release-last :
      (rs : Records B)
      → has_record context.tenant_id ref rs ≡ false
      → is_in_progress c.status ≡ true
      → release context ref (rs ++ c ∷ []) ≡ rs
  unfolding release has_record is_pending_for
  release-last [] new pending = rw (mine, pending) refl
  release-last (r ∷ rs) new pending =
      let other : is_for context.tenant_id ref r ≡ false = ground arith in
      rw (other, release-last rs ground arith pending) refl

claimed_record-mine :
    (B : Type 0) (context : TenantContext) (ref : IdempotencyKey) (hash : String) (now : ℕ)
    → is_for context.tenant_id ref (claimed_record {B = B} context ref hash now) ≡ true
unfolding is_for claimed_record
claimed_record-mine B context ref hash now = ground (
  arith,
  eq_iff context.tenant_id context.tenant_id,
  eq_iff ref.scope ref.scope,
  eq_iff ref.key ref.key,
)

stored_body-none : {B : Type 0} (b : Option B) → stored_body none b ≡ b
stored_body-none none = refl
stored_body-none (some b) = refl

-- Nothing else commits, and the whole claim is at one time.
abbrev pub quiet : {B : Type 0} → ℕ → Interference B
quiet now = record {
  between = λ n rs. rs;
  during = λ n rs. rs;
  inserted_at = λ n. now;
  reclaimed_at = λ n. now;
}

-- A request that claims a key.
pub record Claims {B : Type 0} (request : AuthenticatedRequest B) (context : TenantContext)
    (ref : IdempotencyKey) : Type 0 where
  pub http : request.is_http ≡ true
  pub post : str_eq request.method "POST" ≡ true
  pub header : header_value request.key_header ≡ ok (some ref.key)
  pub short : ltb max_key_length (text_length ref.key) ≡ false
  pub caller : RequestPrincipal
  pub is_caller : request.principal ≡ some caller
  pub scope : http_scope caller request.method request.original_url ≡ ref.scope
  pub allowed : idempotency_context_for caller ≡ some context

module _ {B : Type 0} (fingerprint : Option B → String) (request : AuthenticatedRequest B)
    (context : TenantContext) (ref : IdempotencyKey) (c : Claims request context ref) where
  -- The table once the handler has answered.
  abbrev answered : ℕ → Records B → IdempotentResponse B → Records B
  answered at rs r =
      rs
      ++ completed_record (some r) (claimed_record context ref (fingerprint request.body) at) ∷ []

  intercept-Claims :
      {W : Type 0} (others : Interference B) (writes : Writes)
      (handler : W → W × Result (IdempotentResponse B)) (rs : Records B) (w : W)
      → intercept others fingerprint writes handler request rs w
        ≡ respond others fingerprint writes handler context ref rs w
            (claim others context ref (some (fingerprint request.body)) rs)
  unfolding intercept with_header claim_for claim_in
  intercept-Claims others writes handler rs w =
      rw (c.http, c.post, c.header, c.short, c.is_caller, c.scope, c.allowed) refl

  claim-new :
      (now : ℕ) (rs : Records B)
      → has_record context.tenant_id ref rs ≡ false
      → claim (quiet now) context ref (some (fingerprint request.body)) rs
        ≡ ok (rs ++ claimed_record context ref (fingerprint request.body) now ∷ [], fresh)
  unfolding claim attempt_claim claim_after create_record
  claim-new now rs new = rw new refl

  claim-stored :
      (now at : ℕ) (rs : Records B) (r : IdempotentResponse B)
      → has_record context.tenant_id ref rs ≡ false
      → now < at + idempotency_retention
      → claim (quiet now) context ref (some (fingerprint request.body)) (answered at rs r)
        ≡ ok (answered at rs r, replay (some r))
  unfolding claim attempt_claim claim_after create_record reclaim judge verdict_of
      is_unique_violation claimed_record completed_record is_for is_in_progress stored_response
  claim-stored now at rs r new later =
      let hash = fingerprint request.body in
      let row : IdempotencyRecord B = claimed_record context ref hash at in
      let mine = claimed_record-mine B context ref hash at in
      let stored_row = completed_record (some r) row in
      let mine' : is_for context.tenant_id ref stored_row ≡ true = mine in
      let same : str_eq hash hash ≡ true = (eq_iff hash hash).1 refl in
      rw
        (
          has_record-last context ref stored_row mine' rs,
          any_expired-none context.tenant_id ref now stored_row rs new later,
          find_record-last context ref stored_row mine' rs new,
          same,
          stored_body-none r.body,
        )
        refl

  module _ {W : Type 0} (handler : W → W × Result (IdempotentResponse B)) (rs : Records B)
      (at now : ℕ) (w w' : W) (writes : Writes)
      (new : has_record context.tenant_id ref rs ≡ false) where
    -- If a request claims a key that has no record, and the handler answers it and the answer is
    -- kept, the same request within 24 hours, with nothing in between, is answered with the
    -- stored status and body and the mark of a replay, and changes neither the table nor the
    -- world.
    pub retried_once :
        (again : W → W × Result (IdempotentResponse B)) (writes' : Writes)
        (r : IdempotentResponse B)
        → writes.completes ≡ none
        → handler w ≡ (w', ok r)
        → now < at + idempotency_retention
        → (after : Records B) × (intercept (quiet at) fingerprint writes handler request rs w
            ≡ ((after, w'), ok (record { status = r.code; body = r.body; replayed = false })))
          × (intercept (quiet now) fingerprint writes' again request after w'
              ≡ ((after, w'), ok (record { status = r.code; body = r.body; replayed = true })))
    unfolding respond settle completed claimed_record replay_reply
    retried_once again writes' r written handled later =
        let row : IdempotencyRecord B = claimed_record context ref (fingerprint request.body) at in
        (
          answered at rs r,
          rw
              (
                intercept-Claims (quiet at) writes handler rs w,
                claim-new at rs new,
                handled,
                written,
                complete-last context ref row
                    (claimed_record-mine B context ref (fingerprint request.body) at) (some r) rs
                    new refl,
              )
              refl,
          rw
              (
                intercept-Claims (quiet now) writes' again (answered at rs r) w',
                claim-stored now at rs r new later,
              )
              refl,
        )

    -- If a request claims a key that has no record, and the handler throws, the error is passed
    -- on and the table is as it was before the request, or, if the release fails, grown by the
    -- claim alone.
    pub failure_releases :
        (e : Thrown)
        → handler w ≡ (w', throw e)
        → intercept (quiet at) fingerprint writes handler request rs w ≡ (
          (
            if writes.releases
                then rs
                else rs ++ claimed_record context ref (fingerprint request.body) at ∷ [],
            w',
          ),
          throw e,
        )
    unfolding respond settle released
    failure_releases e handled =
        let row : IdempotencyRecord B = claimed_record context ref (fingerprint request.body) at in
        rw
          (
            intercept-Claims (quiet at) writes handler rs w,
            claim-new at rs new,
            handled,
            release-last context ref row
                (claimed_record-mine B context ref (fingerprint request.body) at) rs new
                (unfold claimed_record in refl),
          )
          refl
