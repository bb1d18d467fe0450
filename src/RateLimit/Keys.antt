-- ===== src/RateLimit/Keys.antt =====
-- src/auth/principal-ref.ts and src/rate-limit/rate-limit-keys.ts.
use nivara_api_nestjs.Principal.{machine, visitor, requester, tenant_of, staff, RequestPrincipal}
use nivara_api_nestjs.Shared.{decimal, String, ℕ}
use Prim.Native.Nat.{ℕ}
use Prim.Native.String.{String}
use Prim.Native.String

unfoldable pub principal_ref : RequestPrincipal → String
principal_ref (staff p) = String.◌++◌ "u:" p.user_id
principal_ref (requester p) = String.◌++◌ "c:" p.contact_id
principal_ref (visitor p) = String.◌++◌ "w:" p.session_id
principal_ref (machine p) = String.◌++◌ "s:" p.token_id

-- `${prefix}:${part}`
abbrev colon : String → String → String
colon a b = String.◌++◌ a (String.◌++◌ ":" b)

unfoldable pub authenticated_key : RequestPrincipal → ℕ → String
unfolding principal_ref
authenticated_key p bucket =
    String.◌++◌ "rl:auth:" (colon (tenant_of p) (colon (principal_ref p) (decimal bucket)))

unfoldable pub slack_ip_key : String → ℕ → String
slack_ip_key ip bucket = String.◌++◌ "rl:slack:ip:" (colon ip (decimal bucket))

unfoldable pub slack_global_key : ℕ → String
slack_global_key bucket = String.◌++◌ "rl:slack:global:" (decimal bucket)
