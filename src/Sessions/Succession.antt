-- ===== src/Sessions/Succession.antt =====
-- What a successful rotation of src/auth/session-rotation.ts has read, spent and written, by the
-- steps of `rotate` in src/auth/refresh-token.service.ts.
use nivara_api_nestjs.Sessions.Lifecycle.{rotate, classify_presented_token, RefreshToken}
use nivara_api_nestjs.Sessions.Rotation.{
  RotatedSession, kind_of_subject, Rotated, handed_out, mint, same_subject_kind, SubjectKind,
}
use nivara_api_nestjs.Sessions.Tokens.{
  has_token, create_token, write, rotate_token, succeed_found, succeed, new_token, subject_of,
  SessionSubject, spend, spends, find_token, Tokens,
}
use nivara_api_nestjs.Shared.{
  inl, inr, Bool-cases, none, Option, ◌++◌, true, refl, [], some, ◌∷◌, ◌≡◌, ℕ, String,
}
use nivara_api_nestjs.Errors.{ok, throw, ◌>>=◌, Result}
use mathlib.Core.Option.{none}
use mathlib.Core.List.{[]}
use Prim.Native.String.{◌∷◌, String}

module _ (hash : String → String) (tenant token fresh : String) (now : ℕ) where
  -- The token is spent in `current`, and `after` has its successor.
  pub record Spent (current after : Tokens) (raw : String) : Type 0 where
    pub unspent : spends tenant (hash token) current ≡ true
    pub predecessor : RefreshToken
    pub is_predecessor :
        find_token tenant (hash token) (spend tenant (hash token) now current) ≡ some predecessor
    pub subject : SessionSubject
    pub is_subject : subject_of predecessor ≡ some subject
    pub written :
        after
        ≡ spend tenant (hash token) now current
          ++ new_token tenant
              (hash fresh)
              predecessor.family_id
              predecessor.family_expires_at
              now
              subject
            ∷ []
    pub handed : raw ≡ fresh

  -- The token was found in `seen`, could be rotated, and was of the kind that is asked for.
  pub record Accepted (expect : SubjectKind) (seen : Tokens) : Type 0 where
    pub read : RefreshToken
    pub found : find_token tenant (hash token) seen ≡ some read
    pub judgement : classify_presented_token read now ≡ rotate
    pub owner : SessionSubject
    pub is_owner : subject_of read ≡ some owner
    pub kind : same_subject_kind (kind_of_subject owner) expect ≡ true

  abbrev pub SpendsIf : Tokens → Result (Tokens × Option String) → Type 0
  SpendsIf current (throw e) = Unit
  SpendsIf current (ok (ts, none)) = Unit
  SpendsIf current (ok (ts, some raw)) = Spent current ts raw

  abbrev pub RotatesIf : {P : Type 0} → Tokens → Rotated P → Type 0
  RotatesIf current (throw e) = Unit
  RotatesIf current (ok (ts, none)) = Unit
  RotatesIf current (ok (ts, some r)) = Spent current ts r.refresh_token

  abbrev pub SoundIf : {P : Type 0} → SubjectKind → Tokens → Tokens → Rotated P → Type 0
  SoundIf expect seen current (throw e) = Unit
  SoundIf expect seen current (ok (ts, none)) = Unit
  SoundIf expect seen current (ok (ts, some r)) =
      Accepted expect seen × Spent current ts r.refresh_token

  succeed-SpendsIf :
      (current : Tokens) (p : RefreshToken) (subject : Option SessionSubject)
      → spends tenant (hash token) current ≡ true
      → find_token tenant (hash token) (spend tenant (hash token) now current) ≡ some p
      → subject_of p ≡ subject
      → SpendsIf current
          (succeed hash tenant fresh now (spend tenant (hash token) now current) p subject)
  unfolding succeed write create_token new_token
  succeed-SpendsIf current p none unspent found owned = tt
  succeed-SpendsIf current p (some subject) unspent found owned =
      let ts = spend tenant (hash token) now current in
      elim (Bool-cases (has_token tenant (hash fresh) ts)) [
        | inl taken ↦ rw taken tt
        | inr new ↦ rw new (record {
          unspent = unspent;
          predecessor = p;
          is_predecessor = found;
          subject = subject;
          is_subject = owned;
          written = refl;
          handed = refl;
        })
      ]

  succeed_found-SpendsIf :
      (current : Tokens) (found : Option RefreshToken)
      → spends tenant (hash token) current ≡ true
      → find_token tenant (hash token) (spend tenant (hash token) now current) ≡ found
      → SpendsIf current
          (succeed_found hash tenant fresh now (spend tenant (hash token) now current) found)
  unfolding succeed_found
  succeed_found-SpendsIf current none unspent found = tt
  succeed_found-SpendsIf current (some p) unspent found =
      succeed-SpendsIf current p (subject_of p) unspent found refl

  rotate_token-SpendsIf :
      (current : Tokens) → SpendsIf current (rotate_token hash tenant token fresh now current)
  unfolding rotate_token
  rotate_token-SpendsIf current = elim (Bool-cases (spends tenant (hash token) current)) [
    | inr lost ↦ rw lost tt
    | inl won ↦ rw won (
        succeed_found-SpendsIf current
          (find_token tenant (hash token) (spend tenant (hash token) now current)) won refl)
  ]

  handed_out-RotatesIf :
      {P : Type 0} (principal : P) (current : Tokens) (r : Result (Tokens × Option String))
      → SpendsIf current r
      → RotatesIf current (r >>= handed_out principal)
  unfolding handed_out
  handed_out-RotatesIf principal current (throw e) k = tt
  handed_out-RotatesIf principal current (ok (ts, none)) k = tt
  handed_out-RotatesIf principal current (ok (ts, some raw)) k = k

  pub mint-RotatesIf :
      {P : Type 0} (resolve : String → Option P) (between : Tokens → Tokens) (current : Tokens)
      (principal : Option P)
      → RotatesIf current (mint hash tenant resolve between token fresh now current principal)
  unfolding mint
  mint-RotatesIf resolve between current none = tt
  mint-RotatesIf resolve between current (some principal) =
      handed_out-RotatesIf principal current (rotate_token hash tenant token fresh now current)
        (rotate_token-SpendsIf current)

  pub RotatesIf-sound :
      {P : Type 0} (expect : SubjectKind) (seen current : Tokens) (r : Rotated P)
      → Accepted expect seen
      → RotatesIf current r
      → SoundIf expect seen current r
  RotatesIf-sound expect seen current (throw e) a k = tt
  RotatesIf-sound expect seen current (ok (ts, none)) a k = tt
  RotatesIf-sound expect seen current (ok (ts, some r)) a k = (a, k)

  pub SoundIf-ok :
      {P : Type 0} (expect : SubjectKind) (seen current after : Tokens) (r : Rotated P)
      (out : RotatedSession P)
      → r ≡ ok (after, some out)
      → SoundIf expect seen current r
      → Accepted expect seen × Spent current after out.refresh_token
  SoundIf-ok expect seen current after r out e k = rw e at k
