-- ===== src/Sessions/Lifecycle.antt =====
-- src/auth/refresh-token-lifecycle.ts: how long a token lives, and the verdict on one that is
-- presented.
use mathlib.Core.Option.{none}
use nivara_api_nestjs.Shared.{
  none, true, some, false, leb, Bool, if◌then◌else◌, ◌+◌, Option, String, ℕ,
}
use Prim.Native.Nat.{ℕ}
use Prim.Native.String.{String}

abbrev pub sliding_window_ms : ℕ
sliding_window_ms = 2592000000

abbrev pub absolute_lifetime_ms : ℕ
absolute_lifetime_ms = 7776000000

unfoldable pub sliding_expiry_for : ℕ → ℕ
sliding_expiry_for now = now + sliding_window_ms

unfoldable pub family_expiry_for : ℕ → ℕ
family_expiry_for now = now + absolute_lifetime_ms

-- A row of the table `refresh_token`.
pub record RefreshToken : Type 0 where
  pub tenant_id : String
  pub user_id : Option String
  pub contact_id : Option String
  pub token_hash : String
  pub family_id : String
  pub expires_at : ℕ
  pub family_expires_at : ℕ
  pub rotated_at : Option ℕ
  pub revoked_at : Option ℕ

pub data RejectReason : Type 0 where
  revoked expired family_expired : RejectReason

pub data RefreshVerdict : Type 0 where
  rotate replay : RefreshVerdict
  reject : RejectReason → RefreshVerdict

abbrev pub is_present {ℓ} : {A : Type ℓ} → Option A → Bool
is_present none = false
is_present (some a) = true

unfoldable pub classify_presented_token : RefreshToken → ℕ → RefreshVerdict
classify_presented_token t now =
    if is_present t.revoked_at
    then reject revoked
    else if is_present t.rotated_at
    then replay
    else if leb t.family_expires_at now
    then reject family_expired
    else if leb t.expires_at now
    then reject expired
    else rotate
