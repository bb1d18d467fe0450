-- ===== src/Shared/Lists.antt =====
-- Lists by Boolean tests and native lengths: JavaScript's array and Set operations.
use Prim.Native.Nat.{ℕ, zero, suc, ◌+◌, ◌≤◌}
use Prim.Native.String.{String}
use mathlib.Core.Path.{◌≡◌, refl, ap}
use mathlib.Core.Logic.{◌↔◌, inl, inr}
use mathlib.Core.Bool.{Bool, true, false, not, ◌&&◌, ◌||◌}
use mathlib.Core.Option.{Option, none, some}
use mathlib.Core.List.{List, [], ◌∷◌, ◌++◌}
use native.Mathlib.Omega.{arith}
use text.Mathlib.Text.{◌==◌ as str_eq}
use text.Mathlib.TextEquality.{eq_iff}
use nivara_api_nestjs.Shared.Tests.{if◌then◌else◌, Bool-cases}

module _ {ℓ} {A : Type ℓ} where
  abbrev pub length : List A → ℕ
  length [] = 0
  length (x ∷ xs) = suc (length xs)

  abbrev pub take : ℕ → List A → List A
  take zero xs = []
  take (suc n) [] = []
  take (suc n) (x ∷ xs) = x ∷ take n xs

  -- `xs[xs.length - 1]`
  abbrev pub last? : List A → Option A
  last? [] = none
  last? (x ∷ []) = some x
  last? (x ∷ y ∷ ys) = last? (y ∷ ys)

  -- `xs.filter(p)`
  unfoldable pub filter_by : (A → Bool) → List A → List A
  filter_by p [] = []
  filter_by p (x ∷ xs) = let rest = filter_by p xs in if p x then x ∷ rest else rest

  -- `xs.some(p)`
  unfoldable pub some_of : (A → Bool) → List A → Bool
  some_of p [] = false
  some_of p (x ∷ xs) = p x || some_of p xs

  abbrev pub All {κ} : (A → Type κ) → List A → Type κ
  All P [] = Unit
  All P (x ∷ xs) = P x × All P xs

  pub length-append : (xs ys : List A) → length (xs ++ ys) ≡ length xs + length ys
  length-append [] ys = omega arith
  length-append (x ∷ xs) ys = omega (arith, length-append xs ys)

  pub length-take-le : (n : ℕ) (xs : List A) → length (take n xs) ≤ n
  length-take-le zero xs = omega arith
  length-take-le (suc n) [] = omega arith
  length-take-le (suc n) (x ∷ xs) = omega (arith, length-take-le n xs)

-- `xs.includes(s)` and `new Set(xs).has(s)` on texts
unfoldable pub includes : List String → String → Bool
includes [] s = false
includes (x ∷ xs) s = str_eq x s || includes xs s

-- `[...new Set(xs)]`: the first occurrence of each text, in order
dedupe_from : List String → List String → List String
dedupe_from seen [] = []
dedupe_from seen (x ∷ xs) =
    let old = dedupe_from seen xs in
    let new = x ∷ dedupe_from (x ∷ seen) xs in if includes seen x then old else new

unfoldable pub dedupe : List String → List String
unfolding dedupe_from includes
dedupe xs = dedupe_from [] xs

pub includes-append :
    (xs ys : List String) (s : String) → includes (xs ++ ys) s ≡ (includes xs s || includes ys s)
unfolding includes
includes-append [] ys s = refl
includes-append (x ∷ xs) ys s = ground (arith, includes-append xs ys s)

pub includes-filter_by :
    (p : String → Bool) (xs : List String) (s : String)
    → includes (filter_by p xs) s ≡ (includes xs s && p s)
unfolding includes filter_by
includes-filter_by p [] s = refl
includes-filter_by p (x ∷ xs) s = elim (Bool-cases (str_eq x s)) [
  | inl same ↦ rw ((eq_iff x s).0 same) (ground (arith, includes-filter_by p xs s, eq_iff s s))
  | inr other ↦ ground (arith, includes-filter_by p xs s)
]

-- Facts about a Boolean property of texts.
module _ (q : String → Bool) where
  pub All-includes :
      (xs : List String) (s : String) → All (λ x. q x ≡ true) xs → includes xs s ≡ true → q s ≡ true
  unfolding includes
  All-includes [] s h e = ground arith
  All-includes (x ∷ xs) s (h, hs) e = ground (arith, eq_iff x s, All-includes xs s hs)

  dedupe_from-All :
      (seen xs : List String)
      → All (λ x. q x ≡ true) xs
      → All (λ x. q x ≡ true) (dedupe_from seen xs)
  unfolding dedupe_from
  dedupe_from-All seen [] h = tt
  dedupe_from-All seen (x ∷ xs) (h, hs) =
      ground (arith, dedupe_from-All seen xs hs, dedupe_from-All (x ∷ seen) xs hs)

  All-dedupe_from :
      (seen xs : List String)
      → All (λ x. q x ≡ true) seen
      → All (λ x. q x ≡ true) (dedupe_from seen xs)
      → All (λ x. q x ≡ true) xs
  unfolding dedupe_from
  All-dedupe_from seen [] k h = tt
  All-dedupe_from seen (x ∷ xs) k h = elim (Bool-cases (includes seen x)) [
    | inl old ↦ (All-includes seen x k old, All-dedupe_from seen xs k (rw (old, dedupe_from) at h))
    | inr new ↦
        let h' : All (λ x. q x ≡ true) (x ∷ dedupe_from (x ∷ seen) xs) =
          rw (new, dedupe_from) at h in
        (h'.0, All-dedupe_from (x ∷ seen) xs (h'.0, k) h'.1)
  ]

  -- Deduplication keeps exactly the properties that all members have.
  pub All-dedupe_iff :
      (xs : List String) → All (λ x. q x ≡ true) (dedupe xs) ↔ All (λ x. q x ≡ true) xs
  unfolding dedupe
  All-dedupe_iff xs = (All-dedupe_from [] xs tt, dedupe_from-All [] xs)

  pub filter_by-nil :
      (xs : List String) → filter_by (λ s. not (q s)) xs ≡ [] → All (λ s. q s ≡ true) xs
  unfolding filter_by
  filter_by-nil [] h = tt
  filter_by-nil (x ∷ xs) h = elim (Bool-cases (q x)) [
    | inl holds ↦ (holds, filter_by-nil xs (rw (holds, filter_by) at h))
    | inr fails ↦ absurd (ground arith)
  ]

  pub filter_by_self : (xs : List String) → All (λ s. q s ≡ true) xs → filter_by q xs ≡ xs
  unfolding filter_by
  filter_by_self [] h = refl
  filter_by_self (x ∷ xs) (h, hs) = rw h (ap (◌∷◌ x) (filter_by_self xs hs))

  pub filter_by-none :
      (xs : List String) → All (λ s. q s ≡ true) xs → filter_by (λ s. not (q s)) xs ≡ []
  unfolding filter_by
  filter_by-none [] h = refl
  filter_by-none (x ∷ xs) (h, hs) = rw h (filter_by-none xs hs)
