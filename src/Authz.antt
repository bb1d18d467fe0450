-- ===== src/Authz.antt =====
-- src/authz: what each caller may do, which scopes a service token may carry, and the guard that
-- holds a route to what it declares.
pub mod Permissions
pub mod ServiceScopes
pub mod Guard
pub mod Grants
pub mod Refusals
