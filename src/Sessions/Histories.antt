-- ===== src/Sessions/Histories.antt =====
-- Histories of src/auth/refresh-token.service.ts and src/auth/session-rotation.ts: every operation,
-- also a rotation that classified its token in an older state of the table, keeps one token to
-- spend in a family.
use nivara_api_nestjs.Sessions.Lifecycle.{
  rotate, replay, reject, RefreshVerdict, family_expiry_for, RefreshToken,
}
use nivara_api_nestjs.Sessions.Rotation.{
  subject_id, kind_of_subject, same_subject_kind, mint, handed_out, judged, presented,
  rotate_refresh_session, RotatedSession, SubjectKind,
}
use nivara_api_nestjs.Shared.{
  Option-cases, refl, none, some, inr, inl, Bool-cases, false, Option, ℕ, ◌≡◌, String,
}
use nivara_api_nestjs.Sessions.Spending.{
  revoke_family-Rewritten, spend-Rewritten, SessionsValid-Rewritten, SessionsValid, any_unspent,
}
use nivara_api_nestjs.Errors.{◌>>=◌, throw, Result, ok}
use nivara_api_nestjs.Sessions.Tokens.{
  Classified, classify, find_token, subject_of, spend, revoke_family, issue, spends, has_token,
  SessionSubject, succeed, Tokens, new_token, succeed_found, create_token, rotate_token, write,
}
use nivara_api_nestjs.Sessions.Families.{any_unspent-spend, SessionsValid-append}
use mathlib.Core.Option.{none}
use Prim.Native.String.{String}

-- What an operation that returns leaves valid.
abbrev Keeps {ℓ} : {A : Type ℓ} → Result (Tokens × A) → Type 0
Keeps (throw e) = Unit
Keeps (ok (ts, a)) = SessionsValid ts

Keeps-ok {ℓ} :
    {A : Type ℓ} (r : Result (Tokens × A)) (ts : Tokens) (a : A)
    → r ≡ ok (ts, a)
    → Keeps r
    → SessionsValid ts
Keeps-ok r ts a e k = rw e at k

module _ (hash : String → String) where
  -- A row that `create` writes.
  write-Keeps :
      (tenant token family : String) (family_expires_at now : ℕ) (subject : SessionSubject)
      (ts : Tokens)
      → any_unspent tenant family ts ≡ false
      → SessionsValid ts
      → Keeps (write hash tenant token family family_expires_at now subject ts)
  unfolding write new_token create_token
  write-Keeps tenant token family family_expires_at now subject ts alone v =
      elim (Bool-cases (has_token tenant (hash token) ts)) [
        | inl taken ↦ rw taken tt
        | inr new ↦ rw new (
            SessionsValid-append
              (new_token tenant (hash token) family family_expires_at now subject) ts new alone v)
      ]

  succeed-Keeps :
      (tenant fresh : String) (now : ℕ) (ts : Tokens) (p : RefreshToken)
      (subject : Option SessionSubject)
      → any_unspent tenant p.family_id ts ≡ false
      → SessionsValid ts
      → Keeps (succeed hash tenant fresh now ts p subject)
  unfolding succeed write new_token create_token
  succeed-Keeps tenant fresh now ts p none alone v = v
  succeed-Keeps tenant fresh now ts p (some subject) alone v =
      elim (Bool-cases (has_token tenant (hash fresh) ts)) [
        | inl taken ↦ rw taken tt
        | inr new ↦ rw new (
            SessionsValid-append
              (new_token tenant (hash fresh) p.family_id p.family_expires_at now subject) ts new
              alone v)
      ]

  succeed_found-Keeps :
      (tenant fresh h : String) (now : ℕ) (ts : Tokens) (found : Option RefreshToken)
      → ((p : RefreshToken) → found ≡ some p → any_unspent tenant p.family_id ts ≡ false)
      → SessionsValid ts
      → Keeps (succeed_found hash tenant fresh now ts found)
  unfolding succeed_found
  succeed_found-Keeps tenant fresh h now ts none alone v = v
  succeed_found-Keeps tenant fresh h now ts (some p) alone v =
      succeed-Keeps tenant fresh now ts p (subject_of p) (alone p refl) v

  -- A rotation of a token in the table that it writes.
  rotate_token-Keeps :
      (tenant token fresh : String) (now : ℕ) (ts : Tokens)
      → SessionsValid ts
      → Keeps (rotate_token hash tenant token fresh now ts)
  unfolding rotate_token
  rotate_token-Keeps tenant token fresh now ts v =
      let h = hash token in
      elim (Bool-cases (spends tenant h ts)) [
        | inr lost ↦ rw lost v
        | inl won ↦ rw won (
            succeed_found-Keeps tenant fresh h now (spend tenant h now ts)
              (find_token tenant h (spend tenant h now ts))
              (λ p found. any_unspent-spend tenant h now ts p v won found)
              (SessionsValid-Rewritten (spend-Rewritten tenant h now ts) v))
      ]

  handed_out-Keeps :
      {P : Type 0} (principal : P) (r : Result (Tokens × Option String))
      → Keeps r
      → Keeps (r >>= handed_out principal)
  unfolding handed_out
  handed_out-Keeps principal (throw e) k = tt
  handed_out-Keeps principal (ok (ts, none)) k = k
  handed_out-Keeps principal (ok (ts, some token)) k = k

  judged-Keeps :
      {P : Type 0} (tenant token fresh : String) (resolve : String → Option P)
      (between : Tokens → Tokens) (now : ℕ) (ts : Tokens) (found : Classified)
      (verdict : RefreshVerdict)
      → SessionsValid ts
      → Keeps (judged hash tenant resolve between token fresh now ts found verdict)
  unfolding judged mint
  judged-Keeps tenant token fresh resolve between now ts found replay v =
      SessionsValid-Rewritten (revoke_family-Rewritten tenant found.family_id now ts) v
  judged-Keeps tenant token fresh resolve between now ts found (reject reason) v = v
  judged-Keeps tenant token fresh resolve between now ts found rotate v =
      elim (Option-cases (resolve (subject_id found.subject))) [
        | inl gone ↦ rw gone v
        | inr (principal, resolved) ↦ rw resolved (
            handed_out-Keeps principal (rotate_token hash tenant token fresh now ts)
              (rotate_token-Keeps tenant token fresh now ts v))
      ]

  presented-Keeps :
      {P : Type 0} (tenant token fresh : String) (resolve : String → Option P)
      (between : Tokens → Tokens) (now : ℕ) (expect : SubjectKind) (ts : Tokens)
      (found : Option Classified)
      → SessionsValid ts
      → Keeps (presented hash tenant resolve between token fresh now expect ts found)
  unfolding presented
  presented-Keeps tenant token fresh resolve between now expect ts none v = v
  presented-Keeps tenant token fresh resolve between now expect ts (some found) v =
      elim (Bool-cases (same_subject_kind (kind_of_subject found.subject) expect)) [
        | inr other ↦ rw other v
        | inl expected ↦
            rw expected
              (judged-Keeps tenant token fresh resolve between now ts found found.verdict v)
      ]

module _ (P : Type 0) (hash : String → String) where
  -- The table `seen` is the one in which the token was classified.
  pub data Step : Tokens → Tokens → Type 0 where
    issues :
        (tenant token family raw : String) (now : ℕ) (subject : SessionSubject) {ts ts' : Tokens}
        → any_unspent tenant family ts ≡ false
        → issue hash tenant token family now subject ts ≡ ok (ts', raw)
        → Step ts ts'
    rotates :
        (tenant token fresh : String) (resolve : String → Option P) (now : ℕ) (expect : SubjectKind)
        (seen : Tokens) (out : Option (RotatedSession P)) {ts ts' : Tokens}
        → rotate_refresh_session hash tenant resolve (λ _. ts) token fresh now expect seen
          ≡ ok (ts', out)
        → Step ts ts'
    revokes :
        (tenant family : String) (now : ℕ) {ts : Tokens}
        → Step ts (revoke_family tenant family now ts)

  pub data Steps : Tokens → Tokens → Type 0 where
    done : {ts : Tokens} → Steps ts ts
    then : {ts us vs : Tokens} → Step ts us → Steps us vs → Steps ts vs

  Step-SessionsValid : {ts ts' : Tokens} → Step ts ts' → SessionsValid ts → SessionsValid ts'
  unfolding issue rotate_refresh_session
  Step-SessionsValid {ts} {ts'} (issues tenant token family raw now subject alone e) v =
      Keeps-ok (issue hash tenant token family now subject ts) ts' raw e
        (write-Keeps hash tenant token family (family_expiry_for now) now subject ts alone v)
  Step-SessionsValid {ts} {ts'} (rotates tenant token fresh resolve now expect seen out e) v =
      Keeps-ok (rotate_refresh_session hash tenant resolve (λ _. ts) token fresh now expect seen)
        ts' out e
        (presented-Keeps hash tenant token fresh resolve (λ _. ts) now expect ts
          (classify hash tenant token now seen) v)
  Step-SessionsValid {ts} (revokes tenant family now) v =
      SessionsValid-Rewritten (revoke_family-Rewritten tenant family now ts) v

  -- Over any sequence of issues into families without an unspent token, rotations, also of tokens
  -- that were classified in any other state of the table, and revocations, the hashes of a tenant
  -- stay distinct and every family keeps at most one token that can be spent, if both held at the
  -- start.
  pub Steps-SessionsValid : {ts ts' : Tokens} → Steps ts ts' → SessionsValid ts → SessionsValid ts'
  Steps-SessionsValid done v = v
  Steps-SessionsValid (then s ss) v = Steps-SessionsValid ss (Step-SessionsValid s v)
