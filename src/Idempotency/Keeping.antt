-- ===== src/Idempotency/Keeping.antt =====
-- The statements of src/idempotency/idempotency.service.ts and the retention sweep on the records
-- of a claimed key.
use nivara_api_nestjs.Idempotency.Guarding.{
  dropped, is_for-both, kept, KeptRecord-refl, is_for-same, nothing_left, KeptRecords, KeptRecord,
  same_ref,
}
use nivara_api_nestjs.Tickets.Chains.{kept}
use mathlib.Core.Option.{none}
use nivara_api_nestjs.Shared.{
  none, some, Option, leb, if◌then◌else◌, ◌∙◌, inl, refl, sym, [], arith, inr, Bool-cases, ◌∷◌,
  false, true, ◌≤◌, ◌&&◌, ◌≡◌, str_eq, ℕ, String,
}
use nivara_api_nestjs.Idempotency.Records.{
  IdempotentResponse, is_pending_for, completed_record, complete, reclaim_records, release,
  sweep_records, IdempotencyRecord, Records, any_expired, claimed_record, is_expired_for, is_for,
  IdempotencyKey,
}
use Prim.Native.String.{[], ◌∷◌, String}
use mathlib.Core.List.{[]}
use nivara_api_nestjs.Principal.Context.{TenantContext}

module _ {B : Type 0} (tenant : String) (ref : IdempotencyKey) (limit : ℕ) where
  -- The statements.
  claimed_row :
      (context : TenantContext) (ref' : IdempotencyKey) (hash : String) (now : ℕ)
      (r : IdempotencyRecord B)
      → is_for context.tenant_id ref' r ≡ true
      → is_for tenant ref r ≡ false
      → is_for tenant ref (claimed_record {B = B} context ref' hash now) ≡ false
  unfolding claimed_record is_for same_ref
  claimed_row context ref' hash now r theirs other =
      elim (Bool-cases (same_ref tenant ref context.tenant_id ref')) [
        | inr different ↦ different
        | inl same ↦
            absurd
              (let e = is_for-same tenant ref limit context.tenant_id ref' r same in ground arith)
      ]

  reclaimed_row :
      (context : TenantContext) (ref' : IdempotencyKey) (hash : String) (now : ℕ)
      (r : IdempotencyRecord B)
      → now ≤ limit
      → is_expired_for tenant ref limit r ≡ false
      → KeptRecord tenant ref limit r (
          if is_expired_for context.tenant_id ref' now r
          then claimed_record context ref' hash now
          else r)
  unfolding is_expired_for
  reclaimed_row context ref' hash now r le standing =
      elim (Bool-cases (is_expired_for context.tenant_id ref' now r)) [
        | inr not_yet ↦ rw not_yet (KeptRecord-refl tenant ref limit r)
        | inl gone ↦
            let other : is_for tenant ref r ≡ false = ground arith in
            let theirs : is_for context.tenant_id ref' r ≡ true = ground arith in
            rw gone (record {
              same = claimed_row context ref' hash now r theirs other ∙ sym other;
              expiry = λ e. absurd ground arith;
            })
      ]

  pub reclaim_records-Kept :
      (context : TenantContext) (ref' : IdempotencyKey) (hash : String) (now : ℕ) (rs : Records B)
      → now ≤ limit
      → any_expired tenant ref limit rs ≡ false
      → KeptRecords tenant ref limit rs (reclaim_records context ref' hash now rs)
  unfolding reclaim_records any_expired
  reclaim_records-Kept context ref' hash now [] le e = nothing_left
  reclaim_records-Kept context ref' hash now (r ∷ rs) le e =
      kept (reclaimed_row context ref' hash now r le ground arith)
        (reclaim_records-Kept context ref' hash now rs le ground arith)

  completed_row :
      (context : TenantContext) (ref' : IdempotencyKey) (response : Option (IdempotentResponse B))
      (r : IdempotencyRecord B)
      → KeptRecord tenant ref limit r
          (if is_pending_for context.tenant_id ref' r then completed_record response r else r)
  unfolding completed_record is_for
  completed_row context ref' none r = elim (Bool-cases (is_pending_for context.tenant_id ref' r)) [
    | inl pending ↦ rw pending (record { same = refl; expiry = λ e. refl })
    | inr settled ↦ rw settled (KeptRecord-refl tenant ref limit r)
  ]
  completed_row context ref' (some response) r =
      elim (Bool-cases (is_pending_for context.tenant_id ref' r)) [
        | inl pending ↦ rw pending (record { same = refl; expiry = λ e. refl })
        | inr settled ↦ rw settled (KeptRecord-refl tenant ref limit r)
      ]

  pub complete-Kept :
      (context : TenantContext) (ref' : IdempotencyKey) (response : Option (IdempotentResponse B))
      (rs : Records B)
      → KeptRecords tenant ref limit rs (complete context ref' response rs)
  unfolding complete
  complete-Kept context ref' response [] = nothing_left
  complete-Kept context ref' response (r ∷ rs) =
      kept (completed_row context ref' response r) (complete-Kept context ref' response rs)

  pub release-Kept :
      (context : TenantContext) (ref' : IdempotencyKey) (rs : Records B)
      → same_ref tenant ref context.tenant_id ref' ≡ false
      → KeptRecords tenant ref limit rs (release context ref' rs)
  unfolding release is_pending_for
  release-Kept context ref' [] other = nothing_left
  release-Kept context ref' (r ∷ rs) other =
      elim (Bool-cases (is_pending_for context.tenant_id ref' r)) [
        | inr stays ↦
            rw stays
              (kept (KeptRecord-refl tenant ref limit r) (release-Kept context ref' rs other))
        | inl goes ↦
            let theirs : is_for context.tenant_id ref' r ≡ true = ground arith in
            let not_mine : is_for tenant ref r ≡ false =
              ground (arith, is_for-both tenant ref limit context.tenant_id ref' r) in
            rw goes (dropped not_mine (release-Kept context ref' rs other))
      ]

  pub sweep_records-Kept :
      (tenant' : String) (now : ℕ) (rs : Records B)
      → now ≤ limit
      → any_expired tenant ref limit rs ≡ false
      → KeptRecords tenant ref limit rs (sweep_records tenant' now rs)
  unfolding sweep_records any_expired is_expired_for
  sweep_records-Kept tenant' now [] le e = nothing_left
  sweep_records-Kept tenant' now (r ∷ rs) le e =
      let rest = sweep_records-Kept tenant' now rs le ground arith in
      elim (Bool-cases (str_eq r.tenant_id tenant' && leb r.expires_at now)) [
        | inr stays ↦ rw stays (kept (KeptRecord-refl tenant ref limit r) rest)
        | inl goes ↦
            let not_mine : is_for tenant ref r ≡ false = ground arith in
            rw goes (dropped not_mine rest)
      ]
