-- ===== src/Tenancy.antt =====
-- src/tenancy/tenancy.service.ts: `forEachTenant`, over the ids that `sweepableTenantIds` lists.
use nivara_api_nestjs.Shared.{refl, [], ◌++◌, ◌∷◌, ◌≡◌, List, String}
use mathlib.Core.List.{[]}
use Prim.Native.String.{◌∷◌, String}
use nivara_api_nestjs.Errors.{ok, throw, ◌>>=◌, Result}

module _ {ℓ κ} {S : Type ℓ} {T : Type κ} where
  abbrev pub collect : List T → S × Result (List T) → S × Result (List T)
  collect ys (s, r) = (s, r >>= λ zs. ok (ys ++ zs))

  -- A visit that throws commits nothing and is the last.
  abbrev pub after_visit : S → Result (S × List T) → (S → S × Result (List T)) → S × Result (List T)
  after_visit s (throw e) next = (s, throw e)
  after_visit s (ok (s', ys)) next = collect ys (next s')

  unfoldable pub for_each_tenant :
      (String → S → Result (S × List T)) → List String → S → S × Result (List T)
  for_each_tenant work [] s = (s, ok [])
  for_each_tenant work (tenant ∷ tenants) s =
      after_visit s (work tenant s) (λ s'. for_each_tenant work tenants s')

  -- If no visit throws, the run does not.
  pub for_each_tenant-returns :
      (work : String → S → Result (S × List T)) (tenants : List String) (s : S)
      → ((tenant : String) (s : S) → (v : S × List T) × (work tenant s ≡ ok v))
      → (collected : List T) × ((for_each_tenant work tenants s).1 ≡ ok collected)
  unfolding for_each_tenant
  for_each_tenant-returns work [] s total = ([], refl)
  for_each_tenant-returns work (tenant ∷ tenants) s total =
      let ((s', ys), e) = total tenant s in
      let (zs, e') = for_each_tenant-returns work tenants s' total in (ys ++ zs, rw (e, e') refl)
