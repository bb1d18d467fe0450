-- ===== src/Idempotency/Guarding.antt =====
-- A claimed key under the statements of src/idempotency: until its records expire, only the release
-- of the key itself takes them away.
use nivara_api_nestjs.Shared.{
  ◌∙◌, inl, refl, sym, [], arith, inr, Bool-cases, eq_iff, ◌++◌, ◌∷◌, false, true, ◌&&◌, ◌≡◌,
  str_eq, Bool, ℕ, String,
}
use nivara_api_nestjs.Idempotency.Records.{
  IdempotencyRecord, Records, any_expired, claimed_record, has_record, is_expired_for, is_for,
  IdempotencyKey,
}
use Prim.Native.String.{[], ◌∷◌, String}
use mathlib.Core.List.{[]}
use nivara_api_nestjs.Principal.Context.{TenantContext}

-- The key has a record, and no record of it has expired at `limit`.
pub record Guarded {B : Type 0} (tenant : String) (ref : IdempotencyKey) (limit : ℕ)
    (rs : Records B) : Type 0 where
  pub held : has_record tenant ref rs ≡ true
  pub standing : any_expired tenant ref limit rs ≡ false

unfoldable pub same_ref : String → IdempotencyKey → String → IdempotencyKey → Bool
same_ref tenant ref tenant' ref' =
    str_eq tenant' tenant && str_eq ref'.scope ref.scope && str_eq ref'.key ref.key

module _ {B : Type 0} (tenant : String) (ref : IdempotencyKey) (limit : ℕ) where
  pub is_for-same :
      (tenant' : String) (ref' : IdempotencyKey) (r : IdempotencyRecord B)
      → same_ref tenant ref tenant' ref' ≡ true
      → is_for tenant' ref' r ≡ is_for tenant ref r
  unfolding is_for same_ref
  is_for-same tenant' ref' r e =
      let t : tenant' ≡ tenant = (eq_iff tenant' tenant).0 ground arith in
      let s : ref'.scope ≡ ref.scope = (eq_iff ref'.scope ref.scope).0 ground arith in
      let k : ref'.key ≡ ref.key = (eq_iff ref'.key ref.key).0 ground arith in rw (t, s, k) refl

  has_record-same :
      (tenant' : String) (ref' : IdempotencyKey) (rs : Records B)
      → same_ref tenant ref tenant' ref' ≡ true
      → has_record tenant' ref' rs ≡ has_record tenant ref rs
  unfolding has_record
  has_record-same tenant' ref' [] e = refl
  has_record-same tenant' ref' (r ∷ rs) e =
      rw (is_for-same tenant' ref' r e, has_record-same tenant' ref' rs e) refl

  -- A record of one key that is also of another.
  pub is_for-both :
      (tenant' : String) (ref' : IdempotencyKey) (r : IdempotencyRecord B)
      → is_for tenant ref r ≡ true
      → is_for tenant' ref' r ≡ true
      → same_ref tenant ref tenant' ref' ≡ true
  unfolding is_for same_ref
  is_for-both tenant' ref' r a b =
      let t : r.tenant_id ≡ tenant' = (eq_iff r.tenant_id tenant').0 ground arith in
      let s : r.scope ≡ ref'.scope = (eq_iff r.scope ref'.scope).0 ground arith in
      let k : r.key ≡ ref'.key = (eq_iff r.key ref'.key).0 ground arith in
      rw (sym t, sym s, sym k) a

  -- An insert.
  has_record_append :
      (r : IdempotencyRecord B) (rs : Records B)
      → has_record tenant ref rs ≡ true
      → has_record tenant ref (rs ++ r ∷ []) ≡ true
  unfolding has_record
  has_record_append r [] e = absurd ground arith
  has_record_append r (x ∷ xs) e = ground (arith, has_record_append r xs)

  any_expired_append :
      (r : IdempotencyRecord B) (rs : Records B)
      → is_for tenant ref r ≡ false
      → any_expired tenant ref limit rs ≡ false
      → any_expired tenant ref limit (rs ++ r ∷ []) ≡ false
  unfolding any_expired is_expired_for
  any_expired_append r [] other e = ground arith
  any_expired_append r (x ∷ xs) other e = ground (arith, any_expired_append r xs other)

  claimed_record-other :
      (context : TenantContext) (ref' : IdempotencyKey) (hash : String) (now : ℕ) (rs : Records B)
      → has_record tenant ref rs ≡ true
      → has_record context.tenant_id ref' rs ≡ false
      → is_for tenant ref (claimed_record {B = B} context ref' hash now) ≡ false
  unfolding claimed_record is_for same_ref
  claimed_record-other context ref' hash now rs held new =
      elim (Bool-cases (same_ref tenant ref context.tenant_id ref')) [
        | inr other ↦ other
        | inl same ↦ absurd (let e = has_record-same context.tenant_id ref' rs same in ground arith)
      ]

  pub create_record-Guarded :
      (context : TenantContext) (ref' : IdempotencyKey) (hash : String) (now : ℕ) (rs : Records B)
      → Guarded tenant ref limit rs
      → has_record context.tenant_id ref' rs ≡ false
      → Guarded tenant ref limit (rs ++ claimed_record context ref' hash now ∷ [])
  create_record-Guarded context ref' hash now rs g new =
      let r = claimed_record context ref' hash now in
      record {
        held = has_record_append r rs g.held;
        standing =
            any_expired_append r rs (claimed_record-other context ref' hash now rs g.held new)
              g.standing;
      }

  -- An update or a deletion that leaves the records of the key standing.
  pub record KeptRecord (r r' : IdempotencyRecord B) : Type 0 where
    pub same : is_for tenant ref r' ≡ is_for tenant ref r
    pub expiry : is_for tenant ref r ≡ true → r'.expires_at ≡ r.expires_at

  pub data KeptRecords : Records B → Records B → Type 0 where
    nothing_left : KeptRecords [] []
    kept :
        {r r' : IdempotencyRecord B} {rs rs' : Records B}
        → KeptRecord r r'
        → KeptRecords rs rs'
        → KeptRecords (r ∷ rs) (r' ∷ rs')
    dropped :
        {r : IdempotencyRecord B} {rs rs' : Records B}
        → is_for tenant ref r ≡ false
        → KeptRecords rs rs'
        → KeptRecords (r ∷ rs) rs'

  pub KeptRecord-refl : (r : IdempotencyRecord B) → KeptRecord r r
  KeptRecord-refl r = record { same = refl; expiry = λ e. refl }

  KeptRecords-held :
      {rs rs' : Records B}
      → KeptRecords rs rs'
      → has_record tenant ref rs' ≡ has_record tenant ref rs
  unfolding has_record
  KeptRecords-held nothing_left = refl
  KeptRecords-held (kept k ks) = rw (k.same, KeptRecords-held ks) refl
  KeptRecords-held (dropped other ks) = rw other (KeptRecords-held ks)

  KeptRecords-standing :
      {rs rs' : Records B}
      → KeptRecords rs rs'
      → any_expired tenant ref limit rs ≡ false
      → any_expired tenant ref limit rs' ≡ false
  unfolding any_expired is_expired_for
  KeptRecords-standing nothing_left e = refl
  KeptRecords-standing (kept {r} {r'} k ks) e = elim (Bool-cases (is_for tenant ref r)) [
    | inr other ↦ rw (k.same, other) (KeptRecords-standing ks ground arith)
    | inl mine ↦ rw (k.same, mine, k.expiry mine) ground (arith, KeptRecords-standing ks)
  ]
  KeptRecords-standing (dropped other ks) e = KeptRecords-standing ks ground arith

  pub KeptRecords-Guarded :
      {rs rs' : Records B}
      → KeptRecords rs rs'
      → Guarded tenant ref limit rs
      → Guarded tenant ref limit rs'
  KeptRecords-Guarded ks g = record {
    held = KeptRecords-held ks ∙ g.held;
    standing = KeptRecords-standing ks g.standing;
  }
