-- ===== src/Authz/Refusals.antt =====
-- What the permission guard of src/authz/permission.guard.ts lets through, and what it refuses.
use nivara_api_nestjs.Shared.{
  refl, inr, inl, Option-cases, not, ◌≡◌, ◌≢◌, ◌↔◌, ◌⊎◌, Option, some, none, true, false, arith,
}
use nivara_api_nestjs.Errors.{ok, throw, fail, unauthenticated}
use nivara_api_nestjs.Principal.{Permission, RequestPrincipal}
use nivara_api_nestjs.Authz.Permissions.{may}
use nivara_api_nestjs.Authz.Guard.{
  PrincipalKind, RouteAccess, kind_of, kind_refused, same_kind, can_activate,
}

-- What a route's declaration asks of a principal: the declared kind, the declared permission, and
-- that something is declared at all.
pub record Admitted (r : RouteAccess) (p : RequestPrincipal) : Type 0 where
  pub of_kind : (k : PrincipalKind) → r.required_kind ≡ some k → kind_of p ≡ k
  pub permitted : (n : Permission) → r.required ≡ some n → may p n ≡ true
  pub declared : (r.required ≢ none) ⊎ (r.required_kind ≢ none) ⊎ (r.authenticated_only ≡ true)

same_kind-eq : (a b : PrincipalKind) → same_kind a b ≡ true → a ≡ b
same_kind-eq a b h = ground arith

kind_refused_sound :
    (o : Option PrincipalKind) (a k : PrincipalKind) → kind_refused o a ≡ false → o ≡ some k → a ≡ k
unfolding kind_refused
kind_refused_sound none a k h e = cc
kind_refused_sound (some r) a k h e = ground (arith, same_kind-eq a r)

can_activate_sound :
    (r : RouteAccess) (p : RequestPrincipal)
    → r.is_public ≡ false
    → can_activate r (some p) ≡ ok true
    → Admitted r p
unfolding can_activate
can_activate_sound r p h e = record {
  of_kind = λ k q. kind_refused_sound r.required_kind (kind_of p) k (ground arith) q;
  permitted = λ n q. ground arith;
  declared = ground arith;
}

same_kind_self : (k : PrincipalKind) → not (same_kind k k) ≡ false
same_kind_self k = ground arith

kind_refused_complete :
    (o : Option PrincipalKind) (a : PrincipalKind)
    → ((k : PrincipalKind) → o ≡ some k → a ≡ k)
    → kind_refused o a ≡ false
unfolding kind_refused
kind_refused_complete none a h = refl
kind_refused_complete (some r) a h = rw (h r refl) (same_kind_self r)

can_activate_complete :
    (r : RouteAccess) (p : RequestPrincipal)
    → r.is_public ≡ false
    → Admitted r p
    → can_activate r (some p) ≡ ok true
unfolding can_activate
can_activate_complete r p h a = elim (Option-cases r.required) [
  | inl undeclared ↦
      ground (arith, kind_refused_complete r.required_kind (kind_of p) a.of_kind, a.declared)
  | inr (n, declares) ↦
      ground
        (arith, kind_refused_complete r.required_kind (kind_of p) a.of_kind, a.permitted n declares)
]

-- On a route that is not public the permission guard refuses a caller without a principal as
-- unauthenticated, and passes one with a principal exactly if it is of the declared kind, holds
-- the declared permission and the route declares anything at all.
pub can_activate_iff :
    (r : RouteAccess) (p : RequestPrincipal)
    → r.is_public ≡ false
    → (can_activate r none ≡ throw (fail unauthenticated))
      × ((can_activate r (some p) ≡ ok true) ↔ Admitted r p)
unfolding can_activate
can_activate_iff r p h = (ground arith, (can_activate_sound r p h, can_activate_complete r p h))
