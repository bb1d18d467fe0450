-- ===== src/Principal.antt =====
-- src/auth/request-principal.ts: the four kinds of caller, and the database context that each
-- one's work is done under (src/tenancy/tenant-context.ts, module Context).
pub mod Context
pub mod Laws
use nivara_api_nestjs.Shared.{Bool, List, Option, none, some, String, str_eq, if◌then◌else◌}
use Context.{Actor, user, contact, service, system, TenantContext}

-- A permission is one of the literals of `PERMISSION_CATALOG`, and a string at run time.
abbrev pub Permission : Type 0
Permission = String

pub data UserRole : Type 0 where
  agent admin : UserRole

pub record StaffPrincipal : Type 0 where
  pub tenant_id : String
  pub user_id : String
  pub role : UserRole

pub record ContactPrincipal : Type 0 where
  pub tenant_id : String
  pub contact_id : String

pub record WidgetPrincipal : Type 0 where
  pub tenant_id : String
  pub session_id : String
  pub contact_id : Option String

pub record ServicePrincipal : Type 0 where
  pub tenant_id : String
  pub token_id : String
  pub scopes : List Permission

pub data RequestPrincipal : Type 0 where
  staff : StaffPrincipal → RequestPrincipal
  requester : ContactPrincipal → RequestPrincipal
  visitor : WidgetPrincipal → RequestPrincipal
  machine : ServicePrincipal → RequestPrincipal

unfoldable pub tenant_of : RequestPrincipal → String
tenant_of (staff p) = p.tenant_id
tenant_of (requester p) = p.tenant_id
tenant_of (visitor p) = p.tenant_id
tenant_of (machine p) = p.tenant_id

-- An empty contact id is as falsy as a null one. `none` is the InvalidTenantContextError.
visitor_actor : Option String → Option Actor
visitor_actor none = none
visitor_actor (some id) = if str_eq id "" then none else some (contact id)

unfoldable pub actor_for : RequestPrincipal → Option Actor
unfolding visitor_actor
actor_for (staff p) = some (user p.user_id)
actor_for (requester p) = some (contact p.contact_id)
actor_for (machine p) = some (service p.token_id)
actor_for (visitor p) = visitor_actor p.contact_id

unfoldable pub tenant_context_for : RequestPrincipal → Option TenantContext
unfolding actor_for tenant_of
tenant_context_for p = elim (actor_for p) [
  | none ↦ none
  | some a ↦ some (record { tenant_id = tenant_of p; actor = a })
]

unfoldable pub system_context_for : String → TenantContext
system_context_for tenant_id = record { tenant_id = tenant_id; actor = system }
