-- ===== src/Authz/Permissions.antt =====
-- src/authz/permissions.ts: the catalog, the two roles' grants, and a principal's permissions.
-- A `Set` of permissions is the list of its members, asked by `includes`.
use nivara_api_nestjs.Shared.{List, [], ◌∷◌, ◌++◌, includes, Bool}
use nivara_api_nestjs.Principal.{
  Permission, UserRole, agent, admin, RequestPrincipal, staff, requester, visitor, machine,
}

-- `Object.keys(PERMISSION_CATALOG)`
abbrev pub permissions : List Permission
permissions =
    "ticket:read" ∷ "ticket:create" ∷ "ticket:reply" ∷ "ticket:transition" ∷ "ticket:assign"
    ∷ "ticket:priority" ∷ "note:read" ∷ "note:write" ∷ "contact:read" ∷ "analytics:read"
    ∷ "user:read" ∷ "ticket:close" ∷ "ticket:delete" ∷ "user:invite" ∷ "user:deactivate"
    ∷ "sla:configure" ∷ "token:manage" ∷ "audit:read" ∷ []

abbrev pub support_work : List Permission
support_work =
    "ticket:read" ∷ "ticket:create" ∷ "ticket:reply" ∷ "ticket:transition" ∷ "ticket:assign"
    ∷ "ticket:priority" ∷ "note:read" ∷ "note:write" ∷ "contact:read" ∷ "analytics:read"
    ∷ "user:read" ∷ []

-- What an admin's grant adds.
abbrev pub admin_work : List Permission
admin_work =
    "ticket:close" ∷ "ticket:delete" ∷ "user:invite" ∷ "user:deactivate" ∷ "sla:configure"
    ∷ "token:manage" ∷ "audit:read" ∷ []

unfoldable pub role_permissions : UserRole → List Permission
role_permissions agent = support_work
role_permissions admin = support_work ++ admin_work

unfoldable pub permissions_for : RequestPrincipal → List Permission
unfolding role_permissions
permissions_for (machine p) = p.scopes
permissions_for (staff p) = role_permissions p.role
permissions_for (requester p) = []
permissions_for (visitor p) = []

-- `permissionsFor(principal).has(permission)`
unfoldable pub may : RequestPrincipal → Permission → Bool
unfolding permissions_for includes
may p permission = includes (permissions_for p) permission
