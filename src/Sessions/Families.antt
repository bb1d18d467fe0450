-- ===== src/Sessions/Families.antt =====
-- The families of src/auth/refresh-token.service.ts: once the presented token is spent its family
-- has no token to spend, so the successor that `rotate` writes is the only one.
use nivara_api_nestjs.Sessions.Spending.{
  spend-Rewritten, any_unspent-Rewritten, SessionsValid, Keyed, OneUnspent, is_unspent_in,
  any_unspent,
}
use nivara_api_nestjs.Shared.{
  ap, none, Option, ◌∙◌, sym, inl, inr, Bool-cases, some, ℕ, str_eq_comm, eq_iff, refl, true, arith,
  ◌||◌, [], false, ◌∷◌, ◌++◌, ◌≡◌, String,
}
use mathlib.Core.Option.{none}
use nivara_api_nestjs.Sessions.Tokens.{
  spent_row, find_token, is_spendable, spend, spends, Tokens, is_of, has_token,
}
use nivara_api_nestjs.Sessions.Lifecycle.{is_present, RefreshToken}
use Prim.Native.String.{[], String}

-- A table with one row more.
has_token_append :
    (tenant h : String) (t : RefreshToken) (ts : Tokens)
    → has_token tenant h (ts ++ t ∷ []) ≡ (has_token tenant h ts || is_of tenant h t)
unfolding has_token
has_token_append tenant h t [] = ground arith
has_token_append tenant h t (x ∷ xs) = rw (has_token_append tenant h t xs) ground arith

any_unspent_append :
    (tenant family : String) (t : RefreshToken) (ts : Tokens)
    → any_unspent tenant family (ts ++ t ∷ [])
      ≡ (any_unspent tenant family ts || is_unspent_in tenant family t)
unfolding any_unspent
any_unspent_append tenant family t [] = ground arith
any_unspent_append tenant family t (x ∷ xs) =
    rw (any_unspent_append tenant family t xs) ground arith

Keyed-append :
    (t : RefreshToken) (ts : Tokens)
    → has_token t.tenant_id t.token_hash ts ≡ false
    → Keyed ts
    → Keyed (ts ++ t ∷ [])
unfolding has_token is_of
Keyed-append t [] new v = (refl, tt)
Keyed-append t (x ∷ xs) new (v, vs) = (
  let tenants = str_eq_comm x.tenant_id t.tenant_id in
      let hashes = str_eq_comm x.token_hash t.token_hash in
      rw (has_token_append x.tenant_id x.token_hash t xs, v) ground arith,
  Keyed-append t xs ground arith vs,
)

OneUnspent-append :
    (t : RefreshToken) (ts : Tokens)
    → any_unspent t.tenant_id t.family_id ts ≡ false
    → OneUnspent ts
    → OneUnspent (ts ++ t ∷ [])
unfolding any_unspent is_unspent_in
OneUnspent-append t [] none_left v = (λ e. refl, tt)
OneUnspent-append t (x ∷ xs) none_left (v, vs) = (
  λ e.
      let tenants = str_eq_comm x.tenant_id t.tenant_id in
      let families = str_eq_comm x.family_id t.family_id in
      rw (any_unspent_append x.tenant_id x.family_id t xs, v e) ground arith,
  OneUnspent-append t xs ground arith vs,
)

-- A hash that no row has is not spent.
spends-none :
    (tenant h : String) (ts : Tokens) → has_token tenant h ts ≡ false → spends tenant h ts ≡ false
unfolding spends has_token is_spendable
spends-none tenant h [] e = refl
spends-none tenant h (x ∷ xs) e = ground (arith, spends-none tenant h xs)

-- Of two rows at most one has the hash.
spends_once :
    (tenant h : String) (x : RefreshToken) (ts : Tokens)
    → Keyed (x ∷ ts)
    → is_of tenant h x ≡ true
    → spends tenant h ts ≡ false
unfolding is_of
spends_once tenant h x ts (v, vs) mine =
    let t = eq_iff x.tenant_id tenant in
    let u = eq_iff x.token_hash h in
    let same : x.tenant_id ≡ tenant = ground arith in
    let same' : x.token_hash ≡ h = ground arith in spends-none tenant h ts (rw (same, same') at v)

-- What `findFirst` reads after the update.
find_token-spend_other :
    (tenant h : String) (now : ℕ) (x : RefreshToken) (xs : Tokens)
    → is_of tenant h x ≡ false
    → find_token tenant h (spend tenant h now (x ∷ xs))
      ≡ find_token tenant h (spend tenant h now xs)
unfolding find_token spend is_spendable
find_token-spend_other tenant h now x xs other = rw (other, other) refl

find_token-spend_first :
    (tenant h : String) (now : ℕ) (x : RefreshToken) (xs : Tokens)
    → is_spendable tenant h x ≡ true
    → find_token tenant h (spend tenant h now (x ∷ xs)) ≡ some (spent_row now x)
unfolding find_token spend is_spendable is_of
find_token-spend_first tenant h now x xs here =
    let mine : is_of tenant h x ≡ true = ground arith in rw here ground arith

abbrev family_of : Option RefreshToken → String
family_of none = ""
family_of (some t) = t.family_id

-- The row that the update spends was unspent, and it was the only one of its family.
any_unspent-origin :
    (tenant h : String) (now : ℕ) (ts : Tokens) (p : RefreshToken)
    → Keyed ts
    → spends tenant h ts ≡ true
    → find_token tenant h (spend tenant h now ts) ≡ some p
    → any_unspent tenant p.family_id ts ≡ true
unfolding any_unspent is_unspent_in spends is_spendable is_of
any_unspent-origin tenant h now [] p v e f = absurd (ground arith)
any_unspent-origin tenant h now (x ∷ xs) p (v, vs) e f = elim (Bool-cases (is_of tenant h x)) [
  | inr other ↦
      let e' : spends tenant h xs ≡ true = ground arith in
      let f' = sym (find_token-spend_other tenant h now x xs other) ∙ f in
      ground (arith, any_unspent-origin tenant h now xs p vs e' f')
  | inl mine ↦
      let once = spends_once tenant h x xs (v, vs) mine in
      let here : is_spendable tenant h x ≡ true = ground arith in
      let same = sym (find_token-spend_first tenant h now x xs here) ∙ f in
      let family : x.family_id ≡ p.family_id = ap family_of same in
      let alike = eq_iff x.family_id p.family_id in ground arith
]

other_family :
    (tenant family : String) (x : RefreshToken) (xs : Tokens)
    → (is_present x.rotated_at ≡ false → any_unspent x.tenant_id x.family_id xs ≡ false)
    → any_unspent tenant family xs ≡ true
    → is_unspent_in tenant family x ≡ false
unfolding is_unspent_in
other_family tenant family x xs w left = elim (Bool-cases (is_unspent_in tenant family x)) [
  | inr different ↦ different
  | inl same ↦
      let tenants = eq_iff x.tenant_id tenant in
      let families = eq_iff x.family_id family in
      let t : x.tenant_id ≡ tenant = ground arith in
      let f : x.family_id ≡ family = ground arith in
      let gone : any_unspent tenant family xs ≡ false = rw (sym t, sym f) (w ground arith) in
      absurd ground arith
]

spent_family :
    (tenant h : String) (now : ℕ) (ts : Tokens) (p : RefreshToken)
    → Keyed ts
    → OneUnspent ts
    → spends tenant h ts ≡ true
    → find_token tenant h (spend tenant h now ts) ≡ some p
    → any_unspent tenant p.family_id (spend tenant h now ts) ≡ false
unfolding any_unspent is_unspent_in spends spend is_spendable is_of
spent_family tenant h now [] p v w e f = absurd (ground arith)
spent_family tenant h now (x ∷ xs) p (v, vs) (w, ws) e f = elim (Bool-cases (is_of tenant h x)) [
  | inr other ↦
      let e' : spends tenant h xs ≡ true = ground arith in
      let f' = sym (find_token-spend_other tenant h now x xs other) ∙ f in
      let origin = any_unspent-origin tenant h now xs p vs e' f' in
      let rest = spent_family tenant h now xs p vs ws e' f' in
      let skip : is_spendable tenant h x ≡ false = ground arith in
      rw (skip, rest, other_family tenant p.family_id x xs w origin) refl
  | inl mine ↦
      let once = spends_once tenant h x xs (v, vs) mine in
      let here : is_spendable tenant h x ≡ true = ground arith in
      let family : x.family_id ≡ p.family_id =
        ap family_of (sym (find_token-spend_first tenant h now x xs here) ∙ f) in
      let same : x.tenant_id ≡ tenant = (eq_iff x.tenant_id tenant).0 ground arith in
      let alone : any_unspent tenant p.family_id xs ≡ false =
        rw (sym same, sym family) (w ground arith) in
      let rest = any_unspent-Rewritten tenant p.family_id (spend-Rewritten tenant h now xs) alone in
      rw (here, rest) ground arith
]

-- Once the presented token is spent, no token of its family can be.
pub any_unspent-spend :
    (tenant h : String) (now : ℕ) (ts : Tokens) (p : RefreshToken)
    → SessionsValid ts
    → spends tenant h ts ≡ true
    → find_token tenant h (spend tenant h now ts) ≡ some p
    → any_unspent tenant p.family_id (spend tenant h now ts) ≡ false
any_unspent-spend tenant h now ts p v = spent_family tenant h now ts p v.keyed v.one_unspent

pub SessionsValid-append :
    (t : RefreshToken) (ts : Tokens)
    → has_token t.tenant_id t.token_hash ts ≡ false
    → any_unspent t.tenant_id t.family_id ts ≡ false
    → SessionsValid ts
    → SessionsValid (ts ++ t ∷ [])
SessionsValid-append t ts new alone v = record {
  keyed = Keyed-append t ts new v.keyed;
  one_unspent = OneUnspent-append t ts alone v.one_unspent;
}
