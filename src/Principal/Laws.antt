-- ===== src/Principal/Laws.antt =====
-- What arming the database for a principal guarantees (src/auth/request-principal.ts and
-- src/tenancy/tenant-context.ts).
use nivara_api_nestjs.Shared.{◌≡◌, ◌≢◌, true, some, String, eq_iff, is_uuid, arith}
use nivara_api_nestjs.Principal.{
  RequestPrincipal, staff, requester, visitor, machine, tenant_of, tenant_context_for,
}
use nivara_api_nestjs.Principal.Context.{
  TenantContext, ContextSettings, kind_system, context_settings, Actor, user, contact, service,
  system, actor_settings,
}

actor_settings_sound :
    (t : String) (a : Actor) (s : ContextSettings)
    → actor_settings t a ≡ some s
    → (s.tenant_id ≡ t) × (s.actor_kind ≢ kind_system → s.actor_id ≢ "")
unfolding actor_settings
actor_settings_sound t system s e = (ground arith, λ k z. ground arith)
actor_settings_sound t (user id) s e = (ground arith, λ k z. ground (arith, eq_iff id ""))
actor_settings_sound t (contact id) s e = (ground arith, λ k z. ground (arith, eq_iff id ""))
actor_settings_sound t (service id) s e = (ground arith, λ k z. ground (arith, eq_iff id ""))

-- Settings that are computed at all are those of the tenant of the context, which is a uuid, and
-- a context other than the system's names a non-empty actor.
pub context_settings_sound :
    (c : TenantContext) (s : ContextSettings)
    → context_settings c ≡ some s
    → (s.tenant_id ≡ c.tenant_id)
      × (is_uuid s.tenant_id ≡ true)
      × (s.actor_kind ≢ kind_system → s.actor_id ≢ "")
unfolding context_settings
context_settings_sound c s e = (
  ground (arith, actor_settings_sound c.tenant_id c.actor s),
  ground (arith, actor_settings_sound c.tenant_id c.actor s),
  λ k z. ground (arith, actor_settings_sound c.tenant_id c.actor s),
)

-- A principal's work is done in the principal's own tenant, and never as the system.
pub tenant_context_for_sound :
    (p : RequestPrincipal) (c : TenantContext)
    → tenant_context_for p ≡ some c
    → (c.tenant_id ≡ tenant_of p) × (c.actor ≢ system)
unfolding tenant_context_for
tenant_context_for_sound (staff p) c e = ground arith
tenant_context_for_sound (requester p) c e = ground arith
tenant_context_for_sound (machine p) c e = ground arith
tenant_context_for_sound (visitor p) c e = ground arith
