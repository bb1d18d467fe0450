-- ===== src/Sessions/Tokens.antt =====
-- src/auth/refresh-token.service.ts, in a transaction of one tenant. `hash` is `hashToken`, the
-- SHA-256 of node:crypto, and the tokens and family ids that are drawn at random are arguments.
use nivara_api_nestjs.Shared.{
  ◌++◌, ◌||◌, [], false, not, str_eq, ◌&&◌, Bool, if◌then◌else◌, none, some, ◌∷◌, List, Option,
  String, ℕ,
}
use nivara_api_nestjs.Errors.{no_cause, driver, ok, throw, ◌>>=◌, Result}
use nivara_api_nestjs.Sessions.Lifecycle.{
  is_present, RefreshVerdict, classify_presented_token, family_expiry_for, RefreshToken,
  sliding_expiry_for,
}
use Prim.Native.String.{◌∷◌, String}
use Prim.Native.Nat.{ℕ}

pub data SessionSubject : Type 0 where
  user contact : String → SessionSubject

-- A text column that is null or empty is falsy.
abbrev truthy : Option String → Option String
truthy none = none
truthy (some s) = if str_eq s "" then none else some s

subject_in : Option String → Option String → Option SessionSubject
subject_in (some id) contact_id = some (user id)
subject_in none (some id) = some (contact id)
subject_in none none = none

unfoldable pub subject_of : RefreshToken → Option SessionSubject
unfolding subject_in
subject_of row = subject_in (truthy row.user_id) (truthy row.contact_id)

abbrev user_column : SessionSubject → Option String
user_column (user id) = some id
user_column (contact id) = none

abbrev contact_column : SessionSubject → Option String
contact_column (user id) = none
contact_column (contact id) = some id

abbrev pub Tokens : Type 0
Tokens = List RefreshToken

unfoldable pub is_of : String → String → RefreshToken → Bool
is_of tenant hash t = str_eq t.tenant_id tenant && str_eq t.token_hash hash

-- `findFirst({ where: { tokenHash } })`
unfoldable pub find_token : String → String → Tokens → Option RefreshToken
unfolding is_of
find_token tenant hash [] = none
find_token tenant hash (t ∷ ts) =
    let rest = find_token tenant hash ts in if is_of tenant hash t then some t else rest

unfoldable pub has_token : String → String → Tokens → Bool
unfolding is_of
has_token tenant hash [] = false
has_token tenant hash (t ∷ ts) = is_of tenant hash t || has_token tenant hash ts

abbrev pub spent_row : ℕ → RefreshToken → RefreshToken
spent_row now t = record t { rotated_at = some now }

-- `updateMany({ where: { tokenHash, rotatedAt: null }, data: { rotatedAt: now } })`: whether a row
-- is written, and the rows afterwards
unfoldable pub is_spendable : String → String → RefreshToken → Bool
unfolding is_of
is_spendable tenant hash t = is_of tenant hash t && not (is_present t.rotated_at)

unfoldable pub spends : String → String → Tokens → Bool
unfolding is_spendable
spends tenant hash [] = false
spends tenant hash (t ∷ ts) = is_spendable tenant hash t || spends tenant hash ts

unfoldable pub spend : String → String → ℕ → Tokens → Tokens
unfolding is_spendable
spend tenant hash now [] = []
spend tenant hash now (t ∷ ts) =
    (if is_spendable tenant hash t then spent_row now t else t) ∷ spend tenant hash now ts

unfoldable pub revoked_row : String → String → ℕ → RefreshToken → RefreshToken
revoked_row tenant family now t =
    if str_eq t.tenant_id tenant && str_eq t.family_id family && not (is_present t.revoked_at)
    then record t { revoked_at = some now }
    else t

unfoldable pub revoke_family : String → String → ℕ → Tokens → Tokens
unfolding revoked_row
revoke_family tenant family now [] = []
revoke_family tenant family now (t ∷ ts) =
    revoked_row tenant family now t ∷ revoke_family tenant family now ts

unfoldable pub new_token :
    (tenant hash family : String) (family_expires_at now : ℕ) → SessionSubject → RefreshToken
unfolding sliding_expiry_for
new_token tenant hash family family_expires_at now subject = record {
  tenant_id = tenant;
  user_id = user_column subject;
  contact_id = contact_column subject;
  token_hash = hash;
  family_id = family;
  expires_at = sliding_expiry_for now;
  family_expires_at = family_expires_at;
  rotated_at = none;
  revoked_at = none;
}

-- The hash is unique in a tenant.
unfoldable pub create_token : RefreshToken → Tokens → Result Tokens
create_token t ts =
    if has_token t.tenant_id t.token_hash ts
    then throw (driver (some "P2002") no_cause)
    else ok (ts ++ t ∷ [])

pub record Classified : Type 0 where
  pub verdict : RefreshVerdict
  pub subject : SessionSubject
  pub family_id : String

module _ (hash : String → String) (tenant : String) where
  unfoldable pub write :
      (token family : String) (family_expires_at now : ℕ)
      → SessionSubject
      → Tokens
      → Result (Tokens × String)
  unfolding new_token create_token
  write token family family_expires_at now subject ts =
      create_token (new_token tenant (hash token) family family_expires_at now subject) ts
      >>= λ ts'. ok (ts', token)

  unfoldable pub issue :
      (token family : String) (now : ℕ) → SessionSubject → Tokens → Result (Tokens × String)
  unfolding write family_expiry_for
  issue token family now subject ts = write token family (family_expiry_for now) now subject ts

  unfoldable pub classified : ℕ → RefreshToken → Option SessionSubject → Option Classified
  unfolding classify_presented_token
  classified now row none = none
  classified now row (some subject) = some (record {
    verdict = classify_presented_token row now;
    subject = subject;
    family_id = row.family_id;
  })

  unfoldable pub classify_row : ℕ → Option RefreshToken → Option Classified
  unfolding classified subject_of
  classify_row now none = none
  classify_row now (some row) = classified now row (subject_of row)

  -- `none` is the outcome 'unknown'.
  unfoldable pub classify : String → ℕ → Tokens → Option Classified
  unfolding classify_row find_token
  classify token now ts = classify_row now (find_token tenant (hash token) ts)

  unfoldable pub succeed :
      String → ℕ → Tokens → RefreshToken → Option SessionSubject → Result (Tokens × Option String)
  unfolding write
  succeed fresh now ts predecessor none = ok (ts, none)
  succeed fresh now ts predecessor (some subject) =
      write fresh predecessor.family_id predecessor.family_expires_at now subject ts >>= λ r.
      ok (r.0, some r.1)

  unfoldable pub succeed_found :
      String → ℕ → Tokens → Option RefreshToken → Result (Tokens × Option String)
  unfolding succeed subject_of
  succeed_found fresh now ts none = ok (ts, none)
  succeed_found fresh now ts (some predecessor) =
      succeed fresh now ts predecessor (subject_of predecessor)

  unfoldable pub rotate_token :
      (token fresh : String) (now : ℕ) → Tokens → Result (Tokens × Option String)
  unfolding succeed_found spends spend find_token
  rotate_token token fresh now ts =
      if not (spends tenant (hash token) ts)
      then ok (ts, none)
      else let ts' = spend tenant (hash token) now ts in
        succeed_found fresh now ts' (find_token tenant (hash token) ts')
