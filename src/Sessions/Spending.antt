-- ===== src/Sessions/Spending.antt =====
-- The rows of src/auth/refresh-token.service.ts under its statements: what an update keeps, and
-- that a spent token leaves its family without one to spend.
use nivara_api_nestjs.Sessions.Tokens.{
  revoked_row, spent_row, is_spendable, Tokens, has_token, revoke_family, spend,
}
use nivara_api_nestjs.Shared.{
  inl, inr, Bool-cases, not, arith, refl, ◌&&◌, ◌||◌, false, if◌then◌else◌, str_eq, true, Bool, [],
  ℕ, ◌∷◌, ◌≡◌, String,
}
use Prim.Native.String.{[], ◌∷◌, String}
use nivara_api_nestjs.Sessions.Lifecycle.{is_present, RefreshToken}

-- What an update keeps of a row.
pub record KeptToken (x y : RefreshToken) : Type 0 where
  pub tenant : y.tenant_id ≡ x.tenant_id
  pub hash : y.token_hash ≡ x.token_hash
  pub family : y.family_id ≡ x.family_id
  pub expiry : y.family_expires_at ≡ x.family_expires_at
  pub spent : is_present x.rotated_at ≡ true → is_present y.rotated_at ≡ true
  pub revoked : is_present x.revoked_at ≡ true → is_present y.revoked_at ≡ true

pub data RewrittenTokens : Tokens → Tokens → Type 0 where
  all_rewritten : RewrittenTokens [] []
  rewritten :
      {x y : RefreshToken} {xs ys : Tokens}
      → KeptToken x y
      → RewrittenTokens xs ys
      → RewrittenTokens (x ∷ xs) (y ∷ ys)

-- No two rows of a tenant have the same hash.
abbrev pub Keyed : Tokens → Type 0
Keyed [] = Unit
Keyed (t ∷ ts) = (has_token t.tenant_id t.token_hash ts ≡ false) × Keyed ts

unfoldable pub is_unspent_in : String → String → RefreshToken → Bool
is_unspent_in tenant family t =
    str_eq t.tenant_id tenant && str_eq t.family_id family && not (is_present t.rotated_at)

unfoldable pub any_unspent : String → String → Tokens → Bool
unfolding is_unspent_in
any_unspent tenant family [] = false
any_unspent tenant family (t ∷ ts) = is_unspent_in tenant family t || any_unspent tenant family ts

-- A family has at most one token that can still be spent.
abbrev pub OneUnspent : Tokens → Type 0
OneUnspent [] = Unit
OneUnspent (t ∷ ts) =
    (is_present t.rotated_at ≡ false → any_unspent t.tenant_id t.family_id ts ≡ false)
    × OneUnspent ts

pub record SessionsValid (ts : Tokens) : Type 0 where
  pub keyed : Keyed ts
  pub one_unspent : OneUnspent ts

KeptToken-refl : (x : RefreshToken) → KeptToken x x
KeptToken-refl x = record {
  tenant = refl;
  hash = refl;
  family = refl;
  expiry = refl;
  spent = λ e. e;
  revoked = λ e. e;
}

spend-KeptToken :
    (tenant h : String) (now : ℕ) (x : RefreshToken)
    → KeptToken x (if is_spendable tenant h x then spent_row now x else x)
spend-KeptToken tenant h now x = elim (Bool-cases (is_spendable tenant h x)) [
  | inr other ↦ rw other (KeptToken-refl x)
  | inl here ↦ rw here (record {
    tenant = refl;
    hash = refl;
    family = refl;
    expiry = refl;
    spent = λ e. refl;
    revoked = λ e. e;
  })
]

pub spend-Rewritten :
    (tenant h : String) (now : ℕ) (ts : Tokens) → RewrittenTokens ts (spend tenant h now ts)
unfolding spend
spend-Rewritten tenant h now [] = all_rewritten
spend-Rewritten tenant h now (x ∷ xs) =
    rewritten (spend-KeptToken tenant h now x) (spend-Rewritten tenant h now xs)

revoked_row-KeptToken :
    (tenant family : String) (now : ℕ) (x : RefreshToken)
    → KeptToken x (revoked_row tenant family now x)
unfolding revoked_row
revoked_row-KeptToken tenant family now x = record {
  tenant = ground arith;
  hash = ground arith;
  family = ground arith;
  expiry = ground arith;
  spent = λ e. ground arith;
  revoked = λ e. ground arith;
}

pub revoke_family-Rewritten :
    (tenant family : String) (now : ℕ) (ts : Tokens)
    → RewrittenTokens ts (revoke_family tenant family now ts)
unfolding revoke_family
revoke_family-Rewritten tenant family now [] = all_rewritten
revoke_family-Rewritten tenant family now (x ∷ xs) =
    rewritten (revoked_row-KeptToken tenant family now x)
      (revoke_family-Rewritten tenant family now xs)

-- A rewritten table.
has_token-Rewritten :
    (tenant h : String) {xs ys : Tokens}
    → RewrittenTokens xs ys
    → has_token tenant h ys ≡ has_token tenant h xs
unfolding has_token
has_token-Rewritten tenant h all_rewritten = refl
has_token-Rewritten tenant h (rewritten k r) =
    rw (k.tenant, k.hash, has_token-Rewritten tenant h r) refl

pub any_unspent-Rewritten :
    (tenant family : String) {xs ys : Tokens}
    → RewrittenTokens xs ys
    → any_unspent tenant family xs ≡ false
    → any_unspent tenant family ys ≡ false
unfolding any_unspent
any_unspent-Rewritten tenant family all_rewritten h = refl
any_unspent-Rewritten tenant family (rewritten {x} {y} k r) h =
    let same = k.tenant in
    let alike = k.family in ground (arith, k.spent, any_unspent-Rewritten tenant family r)

Keyed-Rewritten : {xs ys : Tokens} → RewrittenTokens xs ys → Keyed xs → Keyed ys
Keyed-Rewritten all_rewritten v = tt
Keyed-Rewritten (rewritten {x} {y} k r) v = (
  rw (k.tenant, k.hash, has_token-Rewritten x.tenant_id x.token_hash r) (v.0),
  Keyed-Rewritten r v.1,
)

OneUnspent-Rewritten : {xs ys : Tokens} → RewrittenTokens xs ys → OneUnspent xs → OneUnspent ys
OneUnspent-Rewritten all_rewritten v = tt
OneUnspent-Rewritten (rewritten {x} {y} k r) (v, vs) = (
  λ e.
      let before : is_present x.rotated_at ≡ false = ground (arith, k.spent) in
      rw (k.tenant, k.family) (any_unspent-Rewritten x.tenant_id x.family_id r (v before)),
  OneUnspent-Rewritten r vs,
)

pub SessionsValid-Rewritten :
    {xs ys : Tokens} → RewrittenTokens xs ys → SessionsValid xs → SessionsValid ys
SessionsValid-Rewritten r v = record {
  keyed = Keyed-Rewritten r v.keyed;
  one_unspent = OneUnspent-Rewritten r v.one_unspent;
}
