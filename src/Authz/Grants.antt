-- ===== src/Authz/Grants.antt =====
-- Which permissions the grants of src/authz/permissions.ts and src/authz/service-scopes.ts
-- contain.
use nivara_api_nestjs.Principal.{
  visitor, requester, staff, StaffPrincipal, machine, ServicePrincipal, RequestPrincipal, UserRole,
  Permission, agent, admin,
}
use nivara_api_nestjs.Authz.Permissions.{
  permissions_for, may, permissions, support_work, admin_work, role_permissions,
}
use nivara_api_nestjs.Shared.{
  sym, ◌≡◌, ◌≢◌, refl, ◌↔◌, List, [], ◌∷◌, String, Bool, true, false, not, ◌&&◌, includes,
  includes-append, includes-filter_by, dedupe, arith, All, filter_by-none, filter_by-nil,
  filter_by_self, All-dedupe_iff,
}
use nivara_api_nestjs.Authz.ServiceScopes.{
  refuse_unknown-eq-accept, refuse_forbidden-eq-accept, assignable_scopes, ungrantable_scopes,
  accept, classify_scopes, granted_scopes, classify_deduplicated,
}

includes-granted_scopes :
    (stored : List String) (p : Permission)
    → includes (granted_scopes stored) p ≡ (includes stored p && includes assignable_scopes p)
unfolding granted_scopes
includes-granted_scopes stored p = includes-filter_by (includes assignable_scopes) stored p

includes-ungrantable_scopes :
    (p : Permission)
    → includes ungrantable_scopes p ≡ (includes permissions p && not (includes assignable_scopes p))
unfolding ungrantable_scopes
includes-ungrantable_scopes p =
    includes-filter_by (λ (s : String). not (includes assignable_scopes s)) permissions p

-- Whatever is stored for a token, it acts with a scope exactly if the scope is stored and
-- assignable, and with none of the ungrantable ones.
pub granted_scopes_sound :
    (stored : List String) (p : Permission)
    → (includes (granted_scopes stored) p ≡ (includes stored p && includes assignable_scopes p))
      × (includes ungrantable_scopes p ≡ true → includes (granted_scopes stored) p ≡ false)
granted_scopes_sound stored p = (
  includes-granted_scopes stored p,
  λ h. rw (includes-granted_scopes stored p) (
      split (includes stored p) (includes permissions p) (includes assignable_scopes p)
        (rw (includes-ungrantable_scopes p) at h)),
)
  where
    split : (a b c : Bool) → (b && not c) ≡ true → (a && c) ≡ false
    split a b c h = ground arith

classify_deduplicated_of_All :
    (x : String) (xs : List String)
    → All (λ s. includes assignable_scopes s ≡ true) (x ∷ xs)
    → All (λ s. includes permissions s ≡ true) (x ∷ xs)
    → classify_deduplicated (x ∷ xs) ≡ accept (x ∷ xs)
unfolding classify_deduplicated
classify_deduplicated_of_All x xs h k = rw (
  filter_by-none (includes permissions) (x ∷ xs) k,
  filter_by-none (includes assignable_scopes) (x ∷ xs) h,
)

All-of_classify_deduplicated :
    (x : String) (xs s : List String)
    → classify_deduplicated (x ∷ xs) ≡ accept s
    → (s ≡ x ∷ xs) × All (λ p. includes assignable_scopes p ≡ true) (x ∷ xs)
unfolding classify_deduplicated
All-of_classify_deduplicated x xs s e =
    let (known, rest) = refuse_unknown-eq-accept _ _ s e in
    let (assignable, same) = refuse_forbidden-eq-accept _ _ s rest in
    (sym same, filter_by-nil (includes assignable_scopes) (x ∷ xs) assignable)

permissions_of_assignable :
    (xs : List String)
    → All (λ p. includes assignable_scopes p ≡ true) xs
    → All (λ p. includes permissions p ≡ true) xs
permissions_of_assignable [] h = tt
permissions_of_assignable (x ∷ xs) (h, hs) =
    (rw (includes-append support_work admin_work x, h), permissions_of_assignable xs hs)

-- A request for scopes is accepted exactly if it names at least one and all are assignable; what
-- is accepted is the request without its repetitions, and is granted in full when it is read
-- back.
pub classify_scopes-eq-accept_iff :
    (requested s : List String)
    → (classify_scopes requested ≡ accept s) ↔ (
        (requested ≢ [])
        × All (λ p. includes assignable_scopes p ≡ true) requested
        × (s ≡ dedupe requested)
        × (granted_scopes s ≡ s))
unfolding classify_scopes granted_scopes
classify_scopes-eq-accept_iff [] s = (λ e. cc, λ h. absurd (h.0 refl))
classify_scopes-eq-accept_iff (x ∷ xs) s = (
  λ e.
      let (same, all) = All-of_classify_deduplicated x _ s e in
      (
        λ z. cc,
        (All-dedupe_iff (includes assignable_scopes) (x ∷ xs)).0 all,
        same,
        rw same (filter_by_self (includes assignable_scopes) _ all),
      ),
  λ h.
      let all = (All-dedupe_iff (includes assignable_scopes) (x ∷ xs)).1 h.1 in
      rw h.2
        (classify_deduplicated_of_All x _ all (permissions_of_assignable (dedupe (x ∷ xs)) all)),
)

of_staff_role :
    (r : UserRole) (n : Permission)
    → includes support_work n ≡ false
    → includes (role_permissions r) n ≡ true
    → r ≡ admin
unfolding role_permissions
of_staff_role agent n h e = cc
of_staff_role admin n h e = refl

-- A permission that agents do not hold is held by admins only: not by a contact, a visitor or a
-- service token, whatever scopes are stored for the token, if its scopes were read by
-- `grantedScopes`.
pub may_beyond_agents :
    (p : RequestPrincipal) (n : Permission) (stored : List String)
    → ((s : ServicePrincipal) → p ≡ machine s → s.scopes ≡ granted_scopes stored)
    → includes support_work n ≡ false
    → may p n ≡ true
    → (s : StaffPrincipal) × (p ≡ staff s) × (s.role ≡ admin)
unfolding may permissions_for
may_beyond_agents (staff s) n stored read h e = (s, refl, of_staff_role s.role n h e)
may_beyond_agents (machine s) n stored read h e =
    let scopes = read s refl in
    let granted = includes-granted_scopes stored n in absurd (ground arith)
may_beyond_agents (requester s) n stored read h e = cc
may_beyond_agents (visitor s) n stored read h e = cc
