-- ===== src/Idempotency/Claim.antt =====
-- `claim` of src/idempotency/idempotency.service.ts. An attempt is two transactions. With `n`
-- attempts remaining, `between n` is what other transactions commit between the two, `during n`
-- what they commit between the two statements of the second one, and `inserted_at n` and
-- `reclaimed_at n` are the times at which the two begin.
use Prim.Native.Nat.{zero, suc, ℕ}
use nivara_api_nestjs.Shared.{
  str_eq, zero, not, false, if◌then◌else◌, none, Bool, some, String, Option, ℕ,
}
use nivara_api_nestjs.Errors.{throw, ok, Result, is_unique_violation}
use nivara_api_nestjs.Idempotency.Records.{
  find_record, reclaim_records, IdempotencyRecord, any_expired, create_record, IdempotencyKey,
  IdempotentResponse, Records, is_in_progress,
}
use mathlib.Core.Option.{none}
use nivara_api_nestjs.Principal.Context.{TenantContext}

pub data IdempotencyClaim (B : Type 0) : Type 0 where
  fresh in_flight mismatch : IdempotencyClaim B
  replay : Option (IdempotentResponse B) → IdempotencyClaim B

abbrev pub reclaim_attempts : ℕ
reclaim_attempts = 2

abbrev pub differs : Option String → String → Bool
differs none held = false
differs (some hash) held = not (str_eq held hash)

unfoldable pub stored_response : {B : Type 0} → Option ℕ → Option B → Option (IdempotentResponse B)
stored_response none body = none
stored_response (some code) body = some (record { code = code; body = body })

-- The answer that a record gives to a claim.
unfoldable pub verdict_of : {B : Type 0} → Option String → IdempotencyRecord B → IdempotencyClaim B
unfolding is_in_progress stored_response
verdict_of request_hash held =
    if differs request_hash held.request_hash
    then mismatch
    else if is_in_progress held.status
    then in_flight
    else replay (stored_response held.response_code held.response_body)

-- `requestHash ?? ''`
abbrev pub hash_column : Option String → String
hash_column none = ""
hash_column (some hash) = hash

pub record Interference (B : Type 0) : Type 0 where
  pub between : ℕ → Records B → Records B
  pub during : ℕ → Records B → Records B
  pub inserted_at : ℕ → ℕ
  pub reclaimed_at : ℕ → ℕ

module _ {B : Type 0} (others : Interference B) (context : TenantContext) (ref : IdempotencyKey)
    (request_hash : Option String) where
  abbrev pub Claimed : Type 0
  Claimed = Result (Records B × IdempotencyClaim B)

  -- `retry` is what follows when the record is gone.
  unfoldable pub judge : (Records B → Claimed) → Records B → Option (IdempotencyRecord B) → Claimed
  unfolding verdict_of
  judge retry rs none = retry rs
  judge retry rs (some held) = ok (rs, verdict_of request_hash held)

  unfoldable pub reclaim : (Records B → Claimed) → ℕ → Records B → Claimed
  unfolding judge any_expired reclaim_records find_record
  reclaim retry n rs =
      if any_expired context.tenant_id ref (others.reclaimed_at n) rs
      then ok
          (reclaim_records context ref (hash_column request_hash) (others.reclaimed_at n) rs, fresh)
      else judge retry (others.during n rs) (find_record context.tenant_id ref (others.during n rs))

  unfoldable pub claim_after : (Records B → Claimed) → ℕ → Records B → Result (Records B) → Claimed
  unfolding reclaim is_unique_violation
  claim_after retry n rs (ok rs') = ok (rs', fresh)
  claim_after retry n rs (throw e) =
      if not (is_unique_violation e) then throw e else reclaim retry n (others.between n rs)

  unfoldable pub attempt_claim : ℕ → Records B → Claimed
  unfolding claim_after create_record
  attempt_claim zero rs =
      claim_after (λ rs'. ok (rs', in_flight)) zero rs
        (create_record context ref (hash_column request_hash) (others.inserted_at zero) rs)
  attempt_claim (suc n) rs =
      claim_after (attempt_claim n) (suc n) rs
        (create_record context ref (hash_column request_hash) (others.inserted_at (suc n)) rs)

  unfoldable pub claim : Records B → Claimed
  unfolding attempt_claim
  claim rs = attempt_claim reclaim_attempts rs
