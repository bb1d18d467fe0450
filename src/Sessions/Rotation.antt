-- ===== src/Sessions/Rotation.antt =====
-- src/auth/session-rotation.ts. `resolve` reads the subject's principal, `between` is what other
-- transactions commit after the token was classified.
use nivara_api_nestjs.Sessions.Lifecycle.{rotate, replay, reject, RefreshVerdict}
use nivara_api_nestjs.Shared.{not, if◌then◌else◌, none, some, ℕ, false, Option, true, Bool, String}
use mathlib.Core.Option.{none}
use nivara_api_nestjs.Errors.{◌>>=◌, Result, ok}
use nivara_api_nestjs.Sessions.Tokens.{
  Classified, classify, revoke_family, rotate_token, Tokens, contact, user, SessionSubject,
}
use Prim.Native.String.{String}

pub data SubjectKind : Type 0 where
  kind_user kind_contact : SubjectKind

unfoldable pub kind_of_subject : SessionSubject → SubjectKind
kind_of_subject (user id) = kind_user
kind_of_subject (contact id) = kind_contact

unfoldable pub subject_id : SessionSubject → String
subject_id (user id) = id
subject_id (contact id) = id

abbrev pub same_subject_kind : SubjectKind → SubjectKind → Bool
same_subject_kind kind_user kind_user = true
same_subject_kind kind_contact kind_contact = true
same_subject_kind _ _ = false

pub record RotatedSession (P : Type 0) : Type 0 where
  pub principal : P
  pub refresh_token : String

abbrev pub Rotated : Type 0 → Type 0
Rotated P = Result (Tokens × Option (RotatedSession P))

unfoldable pub handed_out : {P : Type 0} → P → Tokens × Option String → Rotated P
handed_out principal (ts, none) = ok (ts, none)
handed_out principal (ts, some token) =
    ok (ts, some (record { principal = principal; refresh_token = token }))

module _ {P : Type 0} (hash : String → String) (tenant : String) (resolve : String → Option P)
    (between : Tokens → Tokens) where
  unfoldable pub mint : (token fresh : String) (now : ℕ) → Tokens → Option P → Rotated P
  unfolding rotate_token handed_out
  mint token fresh now ts none = ok (ts, none)
  mint token fresh now ts (some principal) =
      rotate_token hash tenant token fresh now ts >>= handed_out principal

  unfoldable pub judged :
      (token fresh : String) (now : ℕ) → Tokens → Classified → RefreshVerdict → Rotated P
  unfolding mint revoke_family subject_id
  judged token fresh now ts found replay = ok (revoke_family tenant found.family_id now ts, none)
  judged token fresh now ts found (reject reason) = ok (ts, none)
  judged token fresh now ts found rotate =
      mint token fresh now ts (resolve (subject_id found.subject))

  unfoldable pub presented :
      (token fresh : String) (now : ℕ) → SubjectKind → Tokens → Option (Classified) → Rotated P
  unfolding judged kind_of_subject
  presented token fresh now expect ts none = ok (ts, none)
  presented token fresh now expect ts (some found) =
      if not (same_subject_kind (kind_of_subject found.subject) expect)
      then ok (ts, none)
      else judged token fresh now ts found found.verdict

  unfoldable pub rotate_refresh_session :
      (token fresh : String) (now : ℕ) → SubjectKind → Tokens → Rotated P
  unfolding presented classify
  rotate_refresh_session token fresh now expect ts =
      presented token fresh now expect (between ts) (classify hash tenant token now ts)
