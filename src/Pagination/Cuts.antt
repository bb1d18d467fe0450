-- ===== src/Pagination/Cuts.antt =====
-- Where a page ends in a list, and a list filtered by its own order: for the pages of
-- src/common/pagination.
use Prim.Native.Nat.{zero, suc, ℕ}
use nivara_api_nestjs.Shared.{
  refl, some, zero, [], ap, arith, false, true, ◌≤◌, All, last?, length, suc, take, ◌++◌, ◌<◌, ◌∷◌,
  ◌≡◌, Bool, List, filter_by, ℕ,
}
use mathlib.Core.List.{[]}

module _ {R : Type 0} where
  pub append-assoc_cons :
      (xs : List R) (a : R) (ys zs : List R) → xs ++ a ∷ (ys ++ zs) ≡ (xs ++ a ∷ ys) ++ zs
  append-assoc_cons [] a ys zs = refl
  append-assoc_cons (x ∷ xs) a ys zs = ap (◌∷◌ x) (append-assoc_cons xs a ys zs)

  pub take-all : (n : ℕ) (xs : List R) → length xs ≤ n → take n xs ≡ xs
  take-all zero [] h = refl
  take-all zero (x ∷ xs) h = absurd (omega (arith, h))
  take-all (suc n) [] h = refl
  take-all (suc n) (x ∷ xs) h = ap (◌∷◌ x) (take-all n xs (omega (arith, h)))

  pub take-take-suc : (n : ℕ) (xs : List R) → take n (take (suc n) xs) ≡ take n xs
  take-take-suc zero [] = refl
  take-take-suc zero (x ∷ xs) = refl
  take-take-suc (suc n) [] = refl
  take-take-suc (suc n) (x ∷ xs) = ap (◌∷◌ x) (take-take-suc n xs)

  pub length-take-suc : (n : ℕ) (xs : List R) → n < length xs → n < length (take (suc n) xs)
  length-take-suc zero [] h = omega (arith, h)
  length-take-suc zero (x ∷ xs) h = omega arith
  length-take-suc (suc n) [] h = omega (arith, h)
  length-take-suc (suc n) (x ∷ xs) h = omega (arith, length-take-suc n xs (omega (arith, h)))

  pub record Cut (n : ℕ) (xs : List R) : Type 0 where
    pub before : List R
    pub anchor : R
    pub rest : List R
    pub split : xs ≡ before ++ anchor ∷ rest
    pub taken : take (suc n) xs ≡ before ++ anchor ∷ []

  Cut-cons : (n : ℕ) (x : R) (xs : List R) → Cut n xs → Cut (suc n) (x ∷ xs)
  Cut-cons n x xs c = record {
    before = x ∷ c.before;
    anchor = c.anchor;
    rest = c.rest;
    split = ap (◌∷◌ x) c.split;
    taken = ap (◌∷◌ x) c.taken;
  }

  pub cut : (n : ℕ) (xs : List R) → suc n < length xs → Cut n xs
  cut zero [] h = absurd (omega (arith, h))
  cut zero (x ∷ xs) h = record { before = []; anchor = x; rest = xs; split = refl; taken = refl }
  cut (suc n) [] h = absurd (omega (arith, h))
  cut (suc n) (x ∷ xs) h = Cut-cons n x xs (cut n xs (omega (arith, h)))

  pub last?-append : (xs : List R) (a : R) → last? (xs ++ a ∷ []) ≡ some a
  last?-append [] a = refl
  last?-append (x ∷ []) a = refl
  last?-append (x ∷ y ∷ ys) a = last?-append (y ∷ ys) a

  pub filter_by-cong :
      (p q : R → Bool) → ((r : R) → p r ≡ q r) → (xs : List R) → filter_by p xs ≡ filter_by q xs
  unfolding filter_by
  filter_by-cong p q e [] = refl
  filter_by-cong p q e (x ∷ xs) = rw (e x, filter_by-cong p q e xs) refl

  -- A list in the order `after`, which tells whether its second argument comes later.
  abbrev pub Ordered : (R → R → Bool) → List R → Type 0
  Ordered after [] = Unit
  Ordered after (x ∷ xs) =
      (after x x ≡ false)
      × All (λ y. (after x y ≡ true) × (after y x ≡ false)) xs
      × Ordered after xs

  filter_by-later :
      (after : R → R → Bool) (a : R) (xs : List R)
      → All (λ y. (after a y ≡ true) × (after y a ≡ false)) xs
      → filter_by (after a) xs ≡ xs
  unfolding filter_by
  filter_by-later after a [] h = refl
  filter_by-later after a (x ∷ xs) (h, hs) = rw h.0 (ap (◌∷◌ x) (filter_by-later after a xs hs))

  All-middle {ℓ} : (P : R → Type ℓ) (xs : List R) (a : R) (ys : List R) → All P (xs ++ a ∷ ys) → P a
  All-middle P [] a ys h = h.0
  All-middle P (x ∷ xs) a ys h = All-middle P xs a ys h.1

  pub filter_by-Ordered :
      (after : R → R → Bool) (xs : List R) (a : R) (ys : List R)
      → Ordered after (xs ++ a ∷ ys)
      → filter_by (after a) (xs ++ a ∷ ys) ≡ ys
  unfolding filter_by
  filter_by-Ordered after [] a ys (h, hs, _) = rw h (filter_by-later after a ys hs)
  filter_by-Ordered after (x ∷ xs) a ys (_, hs, o) =
      rw (All-middle (λ y. (after x y ≡ true) × (after y x ≡ false)) xs a ys hs).1
        (filter_by-Ordered after xs a ys o)
