-- ===== src/Principal/Context.antt =====
-- src/tenancy/tenant-context.ts: the actor that a unit of database work is attributed to, and the
-- settings that arm row-level security with it.
use nivara_api_nestjs.Shared.{Option, none, some, String, str_eq, if◌then◌else◌, is_uuid, not}

pub data ActorKind : Type 0 where
  kind_user kind_contact kind_service kind_system : ActorKind

pub data Actor : Type 0 where
  user contact service : String → Actor
  system : Actor

pub record TenantContext : Type 0 where
  pub tenant_id : String
  pub actor : Actor

pub record ContextSettings : Type 0 where
  pub tenant_id : String
  pub actor_kind : ActorKind
  pub actor_id : String

with_id : String → ActorKind → String → Option ContextSettings
with_id tenant_id kind id =
    if str_eq id ""
    then none
    else some (record { tenant_id = tenant_id; actor_kind = kind; actor_id = id })

unfoldable pub actor_settings : String → Actor → Option ContextSettings
unfolding with_id
actor_settings tenant_id system =
    some (record { tenant_id = tenant_id; actor_kind = kind_system; actor_id = "" })
actor_settings tenant_id (user id) = with_id tenant_id kind_user id
actor_settings tenant_id (contact id) = with_id tenant_id kind_contact id
actor_settings tenant_id (service id) = with_id tenant_id kind_service id

-- `none` is the InvalidTenantContextError. The two refusals of a missing or unknown kind have no
-- counterpart: the type of actors admits no such value.
unfoldable pub context_settings : TenantContext → Option ContextSettings
unfolding actor_settings
context_settings c =
    if str_eq c.tenant_id ""
    then none
    else if not (is_uuid c.tenant_id)
    then none
    else actor_settings c.tenant_id c.actor
