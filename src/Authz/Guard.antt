-- ===== src/Authz/Guard.antt =====
-- src/authz/permission.guard.ts: the decision of `PermissionGuard.canActivate`, over what the
-- route's decorators declare (`Reflector.getAllAndOverride` reads them) and the principal that the
-- authentication guard left on the request.
use nivara_api_nestjs.Shared.{Bool, true, false, Option, none, some, if◌then◌else◌, not}
use nivara_api_nestjs.Errors.{Result, ok, throw, fail, unauthenticated, forbidden}
use nivara_api_nestjs.Principal.{Permission, RequestPrincipal, staff, requester, visitor, machine}
use nivara_api_nestjs.Authz.Permissions.{may}

pub data PrincipalKind : Type 0 where
  user contact widget service : PrincipalKind

unfoldable pub kind_of : RequestPrincipal → PrincipalKind
kind_of (staff p) = user
kind_of (requester p) = contact
kind_of (visitor p) = widget
kind_of (machine p) = service

abbrev pub same_kind : PrincipalKind → PrincipalKind → Bool
same_kind user user = true
same_kind contact contact = true
same_kind widget widget = true
same_kind service service = true
same_kind _ _ = false

-- What a handler and its class declare.
pub record RouteAccess : Type 0 where
  pub is_public : Bool
  pub required_kind : Option PrincipalKind
  pub required : Option Permission
  pub authenticated_only : Bool

unfoldable pub kind_refused : Option PrincipalKind → PrincipalKind → Bool
kind_refused none k = false
kind_refused (some r) k = not (same_kind k r)

is_declared : Option PrincipalKind → Bool
is_declared none = false
is_declared (some k) = true

check_permission : Option Permission → RouteAccess → RequestPrincipal → Result Bool
unfolding is_declared
check_permission none r p =
    if r.authenticated_only
    then ok true
    else if is_declared r.required_kind
    then ok true
    else throw (fail forbidden)
check_permission (some required) r p = if may p required then ok true else throw (fail forbidden)

check_principal : Option RequestPrincipal → RouteAccess → Result Bool
unfolding kind_refused kind_of check_permission
check_principal none r = throw (fail unauthenticated)
check_principal (some p) r =
    if kind_refused r.required_kind (kind_of p)
    then throw (fail forbidden)
    else check_permission r.required r p

unfoldable pub can_activate : RouteAccess → Option RequestPrincipal → Result Bool
unfolding check_principal
can_activate r principal = if r.is_public then ok true else check_principal principal r
