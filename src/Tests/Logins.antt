-- ===== src/Tests/Logins.antt =====
-- Runs of the refresh tokens of src/auth.
use nivara_api_nestjs.Sessions.Spending.{any_unspent, SessionsValid}
use nivara_api_nestjs.Sessions.Tokens.{
  has_token, revoke_family, subject_of, find_token, issue, user, new_token, spent_row, Tokens,
}
use nivara_api_nestjs.Sessions.Reuse.{replay_revokes, any_live, rotation_sound}
use nivara_api_nestjs.Shared.{false, refl, ◌++◌, ◌≡◌, none, [], some, Option, ◌∷◌, String}
use nivara_api_nestjs.Errors.{ok}
use nivara_api_nestjs.Sessions.Succession.{Spent, Accepted}
use nivara_api_nestjs.Sessions.Rotation.{kind_of_subject, kind_user, rotate_refresh_session}
use Prim.Native.String.{[], String}
use nivara_api_nestjs.Tests.Samples.{acme}
use nivara_api_nestjs.Sessions.Lifecycle.{RefreshToken}
use nivara_api_nestjs.Sessions.Histories.{Step, done, then, issues, rotates, Steps-SessionsValid}
use Prim.Native.String

-- A stand-in for SHA-256 under which different tokens have different hashes.
abbrev digest : String → String
digest token = String.◌++◌ "#" token

abbrev first_token : RefreshToken
first_token = record {
  tenant_id = acme;
  user_id = some "u-1";
  contact_id = none;
  token_hash = "#a";
  family_id = "f-1";
  expires_at = 2592000000;
  family_expires_at = 7776000000;
  rotated_at = none;
  revoked_at = none;
}

abbrev one_session : Tokens
one_session = first_token ∷ []

abbrev resolved : String → Option String
resolved id = some id

abbrev rotated_session : Tokens
unfolding new_token
rotated_session =
    spent_row 1000 first_token ∷ new_token acme "#b" "f-1" 7776000000 1000 (user "u-1") ∷ []

opened : Step String digest [] one_session
unfolding issue any_unspent has_token
opened = issues acme "a" "f-1" "a" 0 (user "u-1") refl refl

refreshed : Step String digest one_session rotated_session
unfolding rotate_refresh_session rotated_session has_token
refreshed =
    rotates acme "a" "b" resolved 1000 kind_user one_session
      (some (record { principal = "u-1"; refresh_token = "b" })) refl

Steps-SessionsValid_example : SessionsValid rotated_session
Steps-SessionsValid_example =
    Steps-SessionsValid String digest (then opened (then refreshed done))
      (record { keyed = tt; one_unspent = tt })

rotation_sound_example :
    Accepted digest acme "a" "b" 1000 kind_user one_session
    × Spent digest acme "a" "b" 1000 one_session rotated_session "b"
unfolding rotate_refresh_session has_token
rotation_sound_example =
    rotation_sound digest acme resolved (λ ts. ts) "a" "b" 1000 kind_user one_session
      rotated_session (record { principal = "u-1"; refresh_token = "b" }) refl

replay_revokes_example :
    (after : Tokens) × (rotate_refresh_session digest acme resolved
        (λ ts. ts)
        "a"
        "c"
        2000
        kind_user
        rotated_session
      ≡ ok (after, none))
    × (any_live acme "f-1" after ≡ false)
unfolding find_token subject_of kind_of_subject rotated_session
replay_revokes_example =
    replay_revokes digest acme resolved (λ ts. ts) "a" "c" 2000 kind_user rotated_session
      (spent_row 1000 first_token) (user "u-1") refl refl refl refl refl

-- A rotation that classified its token before a replay revoked the family still hands out a session
-- of the family, whose token is not revoked.
revoked_meanwhile :
    rotate_refresh_session digest acme resolved
      (revoke_family acme "f-1" 900)
      "a"
      "b"
      1000
      kind_user
      one_session
    ≡ ok (
      revoke_family acme "f-1" 900 (spent_row 1000 first_token ∷ [])
          ++ new_token acme "#b" "f-1" 7776000000 1000 (user "u-1") ∷ [],
      some (record { principal = "u-1"; refresh_token = "b" }),
    )
unfolding rotate_refresh_session revoke_family new_token has_token
revoked_meanwhile = refl
