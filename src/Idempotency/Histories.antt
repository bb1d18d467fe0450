-- ===== src/Idempotency/Histories.antt =====
-- Histories of src/idempotency/idempotency.service.ts: what may happen to the table until `limit`
-- while a key is held, and the claims of that key in the meantime.
use nivara_api_nestjs.Idempotency.Records.{
  idempotency_retention, is_for, find_record, is_in_progress, create_record, sweep_records, release,
  complete, IdempotentResponse, reclaim_records, claimed_record, IdempotencyRecord, has_record,
  IdempotencyKey, Records, is_expired_for, any_expired,
}
use nivara_api_nestjs.Shared.{
  eq_iff, ◌+◌, ◌<◌, inr, zero, inl, suc, true, Bool-cases, Bool, refl, [], arith, none, ◌++◌, ◌∷◌,
  false, some, ◌≡◌, ◌≤◌, Option, ℕ, String,
}
use nivara_api_nestjs.Idempotency.Claim.{
  hash_column, mismatch, fresh, reclaim, replay, differs, in_flight, reclaim_attempts,
  attempt_claim, claim_after, claim, judge, verdict_of, IdempotencyClaim, Interference,
}
use Prim.Native.Nat.{zero}
use nivara_api_nestjs.Errors.{is_unique_violation, ok, throw, Result}
use nivara_api_nestjs.Idempotency.Guarding.{
  KeptRecords-Guarded, create_record-Guarded, Guarded, same_ref,
}
use nivara_api_nestjs.Idempotency.Keeping.{
  sweep_records-Kept, release-Kept, complete-Kept, reclaim_records-Kept,
}
use Prim.Native.String.{[], ◌∷◌, String}
use mathlib.Core.List.{[]}
use mathlib.Core.Option.{none}
use nivara_api_nestjs.Principal.Context.{TenantContext}

module _ {B : Type 0} (tenant : String) (ref : IdempotencyKey) (limit : ℕ) where
  -- The statements that any transaction runs, of any tenant, but the release of the key itself.
  pub data Step : Records B → Records B → Type 0 where
    inserts :
        (context : TenantContext) (ref' : IdempotencyKey) (hash : String) (now : ℕ) {rs : Records B}
        → has_record context.tenant_id ref' rs ≡ false
        → Step rs (rs ++ claimed_record context ref' hash now ∷ [])
    reclaims :
        (context : TenantContext) (ref' : IdempotencyKey) (hash : String) (now : ℕ) {rs : Records B}
        → now ≤ limit
        → Step rs (reclaim_records context ref' hash now rs)
    completes :
        (context : TenantContext) (ref' : IdempotencyKey) (response : Option (IdempotentResponse B))
        {rs : Records B}
        → Step rs (complete context ref' response rs)
    releases :
        (context : TenantContext) (ref' : IdempotencyKey) {rs : Records B}
        → same_ref tenant ref context.tenant_id ref' ≡ false
        → Step rs (release context ref' rs)
    sweeps :
        (tenant' : String) (now : ℕ) {rs : Records B}
        → now ≤ limit
        → Step rs (sweep_records tenant' now rs)

  pub data Steps : Records B → Records B → Type 0 where
    done : {rs : Records B} → Steps rs rs
    then : {rs rs' rs'' : Records B} → Step rs rs' → Steps rs' rs'' → Steps rs rs''

  Step-Guarded :
      {rs rs' : Records B}
      → Step rs rs'
      → Guarded tenant ref limit rs
      → Guarded tenant ref limit rs'
  Step-Guarded {rs} (inserts context ref' hash now new) g =
      create_record-Guarded tenant ref limit context ref' hash now rs g new
  Step-Guarded {rs} (reclaims context ref' hash now le) g =
      KeptRecords-Guarded tenant ref limit
        (reclaim_records-Kept tenant ref limit context ref' hash now rs le g.standing) g
  Step-Guarded {rs} (completes context ref' response) g =
      KeptRecords-Guarded tenant ref limit (complete-Kept tenant ref limit context ref' response rs)
        g
  Step-Guarded {rs} (releases context ref' other) g =
      KeptRecords-Guarded tenant ref limit (release-Kept tenant ref limit context ref' rs other) g
  Step-Guarded {rs} (sweeps tenant' now le) g =
      KeptRecords-Guarded tenant ref limit
        (sweep_records-Kept tenant ref limit tenant' now rs le g.standing) g

  pub Steps-Guarded :
      {rs rs' : Records B}
      → Steps rs rs'
      → Guarded tenant ref limit rs
      → Guarded tenant ref limit rs'
  Steps-Guarded done g = g
  Steps-Guarded (then s ss) g = Steps-Guarded ss (Step-Guarded s g)

  -- The other transactions of a claim keep to such histories, and it runs before the limit.
  pub record InTime (others : Interference B) : Type 0 where
    pub between_steps : (n : ℕ) (rs : Records B) → Steps rs (others.between n rs)
    pub during_steps : (n : ℕ) (rs : Records B) → Steps rs (others.during n rs)
    pub in_time : (n : ℕ) → others.reclaimed_at n ≤ limit

-- No record of the key is expired before the limit, if none is at the limit.
any_expired-earlier :
    {B : Type 0} (tenant : String) (ref : IdempotencyKey) (now limit : ℕ) (rs : Records B)
    → now ≤ limit
    → any_expired tenant ref limit rs ≡ false
    → any_expired tenant ref now rs ≡ false
unfolding any_expired is_expired_for
any_expired-earlier tenant ref now limit [] le e = refl
any_expired-earlier tenant ref now limit (r ∷ rs) le e =
    let rest = any_expired-earlier tenant ref now limit rs le ground arith in ground arith

unfoldable pub is_fresh : {B : Type 0} → IdempotencyClaim B → Bool
is_fresh fresh = true
is_fresh in_flight = false
is_fresh mismatch = false
is_fresh (replay response) = false

-- A claim that is answered, is not given the key, and leaves it guarded.
abbrev pub Answered :
    {B : Type 0} → String → IdempotencyKey → ℕ → Result (Records B × IdempotencyClaim B) → Type 0
Answered tenant ref limit (throw e) = ⊥
Answered tenant ref limit (ok (rs, outcome)) =
    (is_fresh outcome ≡ false) × Guarded tenant ref limit rs

module _ {B : Type 0} (others : Interference B) (context : TenantContext) (ref : IdempotencyKey)
    (request_hash : Option String) (limit : ℕ) where
  verdict_of-not_fresh :
      (held : IdempotencyRecord B) → is_fresh (verdict_of request_hash held) ≡ false
  unfolding verdict_of is_fresh
  verdict_of-not_fresh held = elim (Bool-cases (differs request_hash held.request_hash)) [
    | inl other ↦ rw other refl
    | inr same ↦ elim (Bool-cases (is_in_progress held.status)) [
      | inl pending ↦ rw (same, pending) refl
      | inr settled ↦ rw (same, settled) refl
    ]
  ]

  judge-Answered :
      (retry : Records B → Result (Records B × IdempotencyClaim B)) (rs : Records B)
      (held : Option (IdempotencyRecord B))
      → Guarded context.tenant_id ref limit rs
      → Answered context.tenant_id ref limit (retry rs)
      → Answered context.tenant_id ref limit (judge others context ref request_hash retry rs held)
  unfolding judge
  judge-Answered retry rs none g k = k
  judge-Answered retry rs (some held) g k = (verdict_of-not_fresh held, g)

  claim_after-Answered :
      (retry : Records B → Result (Records B × IdempotencyClaim B)) (n : ℕ) (rs : Records B)
      → InTime context.tenant_id ref limit others
      → Guarded context.tenant_id ref limit rs
      → ((rs' : Records B)
          → Guarded context.tenant_id ref limit rs'
          → Answered context.tenant_id ref limit (retry rs'))
      → Answered context.tenant_id ref limit (
          claim_after others context ref request_hash retry n rs
            (create_record context ref (hash_column request_hash) (others.inserted_at n) rs))
  unfolding claim_after create_record reclaim is_unique_violation
  claim_after-Answered retry n rs t g k =
      let g' = Steps-Guarded context.tenant_id ref limit (t.between_steps n rs) g in
      let g'' =
        Steps-Guarded context.tenant_id ref limit (t.during_steps n (others.between n rs)) g' in
      let unexpired =
        any_expired-earlier context.tenant_id ref (others.reclaimed_at n) limit
          (others.between n rs) (t.in_time n) g'.standing in
      let after = others.during n (others.between n rs) in
      rw (g.held, unexpired)
        (judge-Answered retry after (find_record context.tenant_id ref after) g'' (k after g''))

  attempt_claim-Answered :
      (n : ℕ) (rs : Records B)
      → InTime context.tenant_id ref limit others
      → Guarded context.tenant_id ref limit rs
      → Answered context.tenant_id ref limit (attempt_claim others context ref request_hash n rs)
  unfolding attempt_claim is_fresh
  attempt_claim-Answered zero rs t g =
      claim_after-Answered (λ rs'. ok (rs', in_flight)) zero rs t g (λ rs' g'. (refl, g'))
  attempt_claim-Answered (suc n) rs t g =
      claim_after-Answered (attempt_claim others context ref request_hash n) (suc n) rs t g
        (λ rs' g'. attempt_claim-Answered n rs' t g')

  -- property
  pub claim-Answered :
      (rs : Records B)
      → InTime context.tenant_id ref limit others
      → Guarded context.tenant_id ref limit rs
      → Answered context.tenant_id ref limit (claim others context ref request_hash rs)
  unfolding claim
  claim-Answered rs t g = attempt_claim-Answered reclaim_attempts rs t g

-- A key that an insert has claimed is guarded until its record expires.
pub any_expired-none :
    {B : Type 0} (tenant : String) (ref : IdempotencyKey) (limit : ℕ) (r : IdempotencyRecord B)
    (rs : Records B)
    → has_record tenant ref rs ≡ false
    → limit < r.expires_at
    → any_expired tenant ref limit (rs ++ r ∷ []) ≡ false
unfolding any_expired has_record is_expired_for
any_expired-none tenant ref limit r [] new later = ground arith
any_expired-none tenant ref limit r (x ∷ xs) new later =
    ground (arith, any_expired-none tenant ref limit r xs)

has_record-claimed :
    {B : Type 0} (context : TenantContext) (ref : IdempotencyKey) (hash : String) (now : ℕ)
    (rs : Records B)
    → has_record context.tenant_id ref (rs ++ claimed_record context ref hash now ∷ []) ≡ true
unfolding has_record is_for claimed_record
has_record-claimed context ref hash now [] = ground (
  arith,
  eq_iff context.tenant_id context.tenant_id,
  eq_iff ref.scope ref.scope,
  eq_iff ref.key ref.key,
)
has_record-claimed context ref hash now (r ∷ rs) =
    ground (arith, has_record-claimed context ref hash now rs)

-- After a key without a record is claimed, and whatever statements are run on the table in the
-- next 24 hours but the release of that key, a claim of the key in its tenant and before the
-- record expires is answered without an error, is not given the key, and leaves its record
-- standing, whatever other transactions commit during the claim.
pub claimed_once :
    {B : Type 0} (others : Interference B) (first second : TenantContext) (ref : IdempotencyKey)
    (hash : String) (request_hash : Option String) (now limit : ℕ) (rs later : Records B)
    → has_record first.tenant_id ref rs ≡ false
    → limit < now + idempotency_retention
    → second.tenant_id ≡ first.tenant_id
    → InTime second.tenant_id ref limit others
    → Steps second.tenant_id ref limit (rs ++ claimed_record first ref hash now ∷ []) later
    → Answered second.tenant_id ref limit (claim others second ref request_hash later)
unfolding claimed_record
claimed_once others first second ref hash request_hash now limit rs later new le same t ss =
    claim-Answered others second ref request_hash limit later t (
      Steps-Guarded second.tenant_id ref limit ss (
        rw same (record {
          held = has_record-claimed first ref hash now rs;
          standing =
              any_expired-none first.tenant_id ref limit (claimed_record first ref hash now) rs new
                le;
        })))
