-- ===== src/Tests/Access.antt =====
-- Principals, scopes and the permission guard.
use nivara_api_nestjs.Authz.Grants.{may_beyond_agents, classify_scopes-eq-accept_iff}
use nivara_api_nestjs.Principal.{StaffPrincipal, admin, staff}
use nivara_api_nestjs.Authz.Guard.{RouteAccess, can_activate}
use nivara_api_nestjs.Authz.Permissions.{may}
use nivara_api_nestjs.Shared.{
  List, String, dedupe, All, refl, ◌↔◌, true, ◌≢◌, [], false, none, some, ◌∷◌, ◌≡◌, includes,
}
use nivara_api_nestjs.Authz.Refusals.{can_activate_iff, Admitted}
use nivara_api_nestjs.Tests.Samples.{admin_principal, agent_principal}
use nivara_api_nestjs.Authz.ServiceScopes.{
  assignable_scopes, accept, granted_scopes, classify_scopes,
}
use nivara_api_nestjs.Errors.{forbidden, ok, unauthenticated, fail, throw}

abbrev first_user : String
first_user = "u-1"

abbrev requested : List String
requested = "ticket:read" ∷ "ticket:read" ∷ []

abbrev accepted : List String
accepted = "ticket:read" ∷ []

may_beyond_agents_example :
    (s : StaffPrincipal) × (staff admin_principal ≡ staff s) × (s.role ≡ admin)
may_beyond_agents_example =
    may_beyond_agents (staff admin_principal) "ticket:close" [] (λ s e. cc)
      (unfold includes in refl) (unfold may in refl)

classify_scopes-eq-accept_iff_example : (classify_scopes requested ≡ accept accepted) ↔ (
    (requested ≢ [])
    × All (λ p. includes assignable_scopes p ≡ true) requested
    × (accepted ≡ dedupe requested)
    × (granted_scopes accepted ≡ accepted))
classify_scopes-eq-accept_iff_example = classify_scopes-eq-accept_iff requested accepted

abbrev close_route : RouteAccess
close_route = record {
  is_public = false;
  required_kind = none;
  required = some "ticket:close";
  authenticated_only = false;
}

can_activate_iff_example :
    (can_activate close_route none ≡ throw (fail unauthenticated))
    × ((can_activate close_route (some (staff agent_principal)) ≡ ok true)
        ↔ Admitted close_route (staff agent_principal))
can_activate_iff_example = can_activate_iff close_route (staff agent_principal) refl

-- An agent holds no permission to close, an admin does.
agent_is_refused : can_activate close_route (some (staff agent_principal)) ≡ throw (fail forbidden)
unfolding can_activate may
agent_is_refused = refl

admin_passes : can_activate close_route (some (staff admin_principal)) ≡ ok true
unfolding can_activate may
admin_passes = refl
