-- ===== src/Authz/ServiceScopes.antt =====
-- src/authz/service-scopes.ts: which scopes a token may be minted with, and which of the stored
-- ones it is granted.
use nivara_api_nestjs.Shared.{◌≡◌, refl, List, [], ◌∷◌, String, includes, not, dedupe, filter_by}
use nivara_api_nestjs.Principal.{Permission}
use nivara_api_nestjs.Authz.Permissions.{permissions, support_work}

abbrev pub assignable_scopes : List Permission
assignable_scopes = support_work

unfoldable pub ungrantable_scopes : List Permission
unfolding filter_by includes
ungrantable_scopes = filter_by (λ p. not (includes assignable_scopes p)) permissions

pub data ScopeVerdict : Type 0 where
  accept : List Permission → ScopeVerdict
  unknown : List String → ScopeVerdict
  forbidden : List String → ScopeVerdict
  empty : ScopeVerdict

-- the two tests on the offending lists, which are empty or name the offenders
pub refuse_forbidden : List String → List Permission → ScopeVerdict
refuse_forbidden [] scopes = accept scopes
refuse_forbidden (o ∷ os) scopes = forbidden (o ∷ os)

pub refuse_unknown : List String → ScopeVerdict → ScopeVerdict
refuse_unknown [] next = next
refuse_unknown (o ∷ os) next = unknown (o ∷ os)

unfoldable pub classify_deduplicated : List String → ScopeVerdict
unfolding refuse_unknown refuse_forbidden filter_by includes
classify_deduplicated [] = empty
classify_deduplicated (x ∷ xs) =
    refuse_unknown (filter_by (λ s. not (includes permissions s)) (x ∷ xs))
      (refuse_forbidden (filter_by (λ s. not (includes assignable_scopes s)) (x ∷ xs)) (x ∷ xs))

unfoldable pub classify_scopes : List String → ScopeVerdict
unfolding classify_deduplicated dedupe
classify_scopes requested = classify_deduplicated (dedupe requested)

unfoldable pub granted_scopes : List String → List Permission
unfolding filter_by includes
granted_scopes stored = filter_by (includes assignable_scopes) stored

pub refuse_unknown-eq-accept :
    (l : List String) (next : ScopeVerdict) (s : List Permission)
    → refuse_unknown l next ≡ accept s
    → (l ≡ []) × (next ≡ accept s)
unfolding refuse_unknown
refuse_unknown-eq-accept [] next s e = (refl, e)
refuse_unknown-eq-accept (o ∷ os) next s e = cc

pub refuse_forbidden-eq-accept :
    (l scopes s : List Permission) → refuse_forbidden l scopes ≡ accept s → (l ≡ []) × (scopes ≡ s)
unfolding refuse_forbidden
refuse_forbidden-eq-accept [] scopes s e = (refl, cc)
refuse_forbidden-eq-accept (o ∷ os) scopes s e = cc
