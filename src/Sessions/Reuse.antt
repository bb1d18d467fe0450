-- ===== src/Sessions/Reuse.antt =====
-- The outcomes of `rotateRefreshSession` in src/auth/session-rotation.ts: what a rotation that
-- hands out a session has checked and written, and what a replayed token does to its family.
use nivara_api_nestjs.Sessions.Succession.{
  SoundIf-ok, mint-RotatesIf, RotatesIf-sound, Spent, Accepted, SoundIf,
}
use nivara_api_nestjs.Sessions.Lifecycle.{
  replay, reject, RefreshVerdict, is_present, rotate, classify_presented_token, RefreshToken,
}
use nivara_api_nestjs.Sessions.Rotation.{
  RotatedSession, subject_id, presented, rotate_refresh_session, judged, kind_of_subject, mint,
  same_subject_kind, SubjectKind,
}
use nivara_api_nestjs.Sessions.Tokens.{
  classified, classify_row, classify, Classified, subject_of, SessionSubject, find_token, Tokens,
  revoked_row, revoke_family,
}
use nivara_api_nestjs.Shared.{
  inl, inr, Bool-cases, none, Option, true, refl, [], arith, not, ◌||◌, some, ◌&&◌, ◌∷◌, false,
  str_eq, Bool, ◌≡◌, ℕ, String,
}
use nivara_api_nestjs.Errors.{ok}
use mathlib.Core.Option.{none}
use mathlib.Core.List.{[]}
use Prim.Native.String.{◌∷◌, String}

unfoldable pub is_live_in : String → String → RefreshToken → Bool
is_live_in tenant family t =
    str_eq t.tenant_id tenant && str_eq t.family_id family && not (is_present t.revoked_at)

unfoldable pub any_live : String → String → Tokens → Bool
unfolding is_live_in
any_live tenant family [] = false
any_live tenant family (t ∷ ts) = is_live_in tenant family t || any_live tenant family ts

any_live-revoke_family :
    (tenant family : String) (now : ℕ) (ts : Tokens)
    → any_live tenant family (revoke_family tenant family now ts) ≡ false
unfolding any_live is_live_in revoke_family revoked_row
any_live-revoke_family tenant family now [] = refl
any_live-revoke_family tenant family now (t ∷ ts) =
    ground (arith, any_live-revoke_family tenant family now ts)

module _ {P : Type 0} (hash : String → String) (tenant : String) (resolve : String → Option P)
    (between : Tokens → Tokens) (token fresh : String) (now : ℕ) (expect : SubjectKind) where
  judged-SoundIf :
      (seen current : Tokens) (found : Classified) (verdict : RefreshVerdict)
      → (verdict ≡ rotate → Accepted hash tenant token fresh now expect seen)
      → SoundIf hash tenant token fresh now expect seen current
          (judged hash tenant resolve between token fresh now current found verdict)
  unfolding judged
  judged-SoundIf seen current found replay a = tt
  judged-SoundIf seen current found (reject reason) a = tt
  judged-SoundIf seen current found rotate a =
      let principal = resolve (subject_id found.subject) in
      RotatesIf-sound hash tenant token fresh now expect seen current
        (mint hash tenant resolve between token fresh now current principal) (a refl)
        (mint-RotatesIf hash tenant token fresh now resolve between current principal)

  classified-SoundIf :
      (seen current : Tokens) (p : RefreshToken) (owner : Option SessionSubject)
      → find_token tenant (hash token) seen ≡ some p
      → subject_of p ≡ owner
      → SoundIf hash tenant token fresh now expect seen current (
          presented hash tenant resolve between token fresh now expect current
            (classified hash tenant now p owner))
  unfolding presented classified
  classified-SoundIf seen current p none found owned = tt
  classified-SoundIf seen current p (some owner) found owned =
      elim (Bool-cases (same_subject_kind (kind_of_subject owner) expect)) [
        | inr other ↦ rw other tt
        | inl expected ↦ rw expected (
            judged-SoundIf seen current
              (record {
                verdict = classify_presented_token p now;
                subject = owner;
                family_id = p.family_id;
              })
              (classify_presented_token p now)
              (λ e. record {
                read = p;
                found = found;
                judgement = e;
                owner = owner;
                is_owner = owned;
                kind = expected;
              }))
      ]

  classify_row-SoundIf :
      (seen current : Tokens) (o : Option RefreshToken)
      → find_token tenant (hash token) seen ≡ o
      → SoundIf hash tenant token fresh now expect seen current (
          presented hash tenant resolve between token fresh now expect current
            (classify_row hash tenant now o))
  unfolding presented classify_row
  classify_row-SoundIf seen current none found = tt
  classify_row-SoundIf seen current (some p) found =
      classified-SoundIf seen current p (subject_of p) found refl

  -- A rotation that hands out a session read the token as one to be rotated, of a subject of the
  -- kind that is asked for; the token was unspent when it was written, and the table is the one
  -- with it spent and with one successor, in its family, of its subject, and ending when the
  -- family ends.
  pub rotation_sound :
      (seen after : Tokens) (r : RotatedSession P)
      → rotate_refresh_session hash tenant resolve between token fresh now expect seen
        ≡ ok (after, some r)
      → Accepted hash tenant token fresh now expect seen
        × Spent hash tenant token fresh now (between seen) after r.refresh_token
  unfolding rotate_refresh_session classify
  rotation_sound seen after r e =
      SoundIf-ok hash tenant token fresh now expect seen (between seen) after
        (rotate_refresh_session hash tenant resolve between token fresh now expect seen) r e
        (classify_row-SoundIf seen (between seen) (find_token tenant (hash token) seen) refl)

  -- If a token of the kind that is asked for is presented that was rotated and not revoked when
  -- it was read, no session is handed out and no token of its family is left unrevoked.
  pub replay_revokes :
      (seen : Tokens) (p : RefreshToken) (owner : SessionSubject)
      → find_token tenant (hash token) seen ≡ some p
      → subject_of p ≡ some owner
      → same_subject_kind (kind_of_subject owner) expect ≡ true
      → is_present p.revoked_at ≡ false
      → is_present p.rotated_at ≡ true
      → (after : Tokens) × (rotate_refresh_session hash tenant resolve between token fresh now
            expect seen
          ≡ ok (after, none))
        × (any_live tenant p.family_id after ≡ false)
  unfolding rotate_refresh_session presented judged classify classify_row classified
      classify_presented_token
  replay_revokes seen p owner found owned expected unrevoked spent = (
    revoke_family tenant p.family_id now (between seen),
    rw (found, owned, expected, unrevoked, spent) refl,
    any_live-revoke_family tenant p.family_id now (between seen),
  )
