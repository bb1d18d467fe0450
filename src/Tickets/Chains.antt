-- ===== src/Tickets/Chains.antt =====
-- The chains of follow-up tickets of prisma/migrations: a row that is rewritten stays in its chain,
-- and the index ticket_one_live_per_chain is never violated by an update.
use nivara_api_nestjs.Shared.{
  eq_iff, arith, refl, str_eq, ◌&&◌, false, true, String, [], ◌++◌, ◌∙◌, ◌∷◌, ◌≡◌, List,
}
use nivara_api_nestjs.Domain.{closed, Ticket}
use nivara_api_nestjs.Tickets.Rows.{chain_root_of, has_id, is_live, is_occupied, occupies}

-- What an update keeps of a row.
pub record KeptRow (x y : Ticket) : Type 0 where
  pub id : y.id ≡ x.id
  pub tenant : y.tenant_id ≡ x.tenant_id
  pub contact : y.contact_id ≡ x.contact_id
  pub root : y.root_ticket_id ≡ x.root_ticket_id
  pub final :
      x.state ≡ closed
      → (y.state ≡ closed) × (y.priority ≡ x.priority) × (y.assignee_id ≡ x.assignee_id)

pub KeptRow-refl : (x : Ticket) → KeptRow x x
KeptRow-refl x = record {
  id = refl;
  tenant = refl;
  contact = refl;
  root = refl;
  final = λ c. (c, refl, refl);
}

pub KeptRow-trans : (x y z : Ticket) → KeptRow x y → KeptRow y z → KeptRow x z
KeptRow-trans x y z a b = record {
  id = b.id ∙ a.id;
  tenant = b.tenant ∙ a.tenant;
  contact = b.contact ∙ a.contact;
  root = b.root ∙ a.root;
  final = λ c. let (d, p, q) = a.final c in let (e, p', q') = b.final d in (e, p' ∙ p, q' ∙ q);
}

-- Every row of the first table is still there in the second one, at its place.
pub data Kept : List Ticket → List Ticket → Type 0 where
  all_kept : {ys : List Ticket} → Kept [] ys
  kept : {x y : Ticket} {xs ys : List Ticket} → KeptRow x y → Kept xs ys → Kept (x ∷ xs) (y ∷ ys)

-- The second table is the first one with rows rewritten.
pub data Rewritten : List Ticket → List Ticket → Type 0 where
  all_rewritten : Rewritten [] []
  rewritten :
      {x y : Ticket} {xs ys : List Ticket}
      → KeptRow x y
      → Rewritten xs ys
      → Rewritten (x ∷ xs) (y ∷ ys)

pub Kept-refl : (xs : List Ticket) → Kept xs xs
Kept-refl [] = all_kept
Kept-refl (x ∷ xs) = kept (KeptRow-refl x) (Kept-refl xs)

pub Kept-trans : {xs ys zs : List Ticket} → Kept xs ys → Kept ys zs → Kept xs zs
Kept-trans all_kept b = all_kept
Kept-trans (kept {x} {y} k a) (kept {y = z} l b) = kept (KeptRow-trans x y z k l) (Kept-trans a b)

pub Kept-of_Rewritten : {xs ys : List Ticket} → Rewritten xs ys → Kept xs ys
Kept-of_Rewritten all_rewritten = all_kept
Kept-of_Rewritten (rewritten k r) = kept k (Kept-of_Rewritten r)

pub Kept-append : (xs ys : List Ticket) → Kept xs (xs ++ ys)
Kept-append [] ys = all_kept
Kept-append (x ∷ xs) ys = kept (KeptRow-refl x) (Kept-append xs ys)

-- No two rows share an id.
abbrev pub Keyed : List Ticket → Type 0
Keyed [] = Unit
Keyed (t ∷ ts) = (has_id t.id ts ≡ false) × Keyed ts

-- A chain has at most one live ticket.
abbrev pub OneLive : List Ticket → Type 0
OneLive [] = Unit
OneLive (t ∷ ts) =
    (is_live t ≡ true → is_occupied t.tenant_id (chain_root_of t) ts ≡ false) × OneLive ts

pub record ChainsValid (ts : List Ticket) : Type 0 where
  pub keyed : Keyed ts
  pub one_live : OneLive ts

chain_root_of-KeptRow : (x y : Ticket) → KeptRow x y → chain_root_of y ≡ chain_root_of x
unfolding chain_root_of
chain_root_of-KeptRow x y k = rw (k.root, k.id) refl

is_live-KeptRow : (x y : Ticket) → KeptRow x y → is_live y ≡ true → is_live x ≡ true
unfolding is_live
is_live-KeptRow x y k h = ground (arith, k.final)

occupies-KeptRow :
    (tenant root : String) (x y : Ticket)
    → KeptRow x y
    → occupies tenant root y ≡ true
    → occupies tenant root x ≡ true
unfolding occupies
occupies-KeptRow tenant root x y k h =
    let h' = (rw (chain_root_of-KeptRow x y k, k.tenant) at h) in
    ground (arith, is_live-KeptRow x y k)

is_occupied-Rewritten :
    (tenant root : String) {xs ys : List Ticket}
    → Rewritten xs ys
    → is_occupied tenant root xs ≡ false
    → is_occupied tenant root ys ≡ false
unfolding is_occupied
is_occupied-Rewritten tenant root all_rewritten h = refl
is_occupied-Rewritten tenant root (rewritten {x} {y} k r) h =
    ground (arith, occupies-KeptRow tenant root x y k, is_occupied-Rewritten tenant root r)

has_id-Rewritten :
    (id : String) {xs ys : List Ticket} → Rewritten xs ys → has_id id ys ≡ has_id id xs
unfolding has_id
has_id-Rewritten id all_rewritten = refl
has_id-Rewritten id (rewritten k r) = rw (k.id, has_id-Rewritten id r) refl

Keyed-Rewritten : {xs ys : List Ticket} → Rewritten xs ys → Keyed xs → Keyed ys
Keyed-Rewritten all_rewritten v = tt
Keyed-Rewritten (rewritten {x} {y} k r) v =
    (rw (k.id, has_id-Rewritten x.id r) (v.0), Keyed-Rewritten r v.1)

OneLive-Rewritten : {xs ys : List Ticket} → Rewritten xs ys → OneLive xs → OneLive ys
OneLive-Rewritten all_rewritten o = tt
OneLive-Rewritten (rewritten {x} {y} k r) o = (
  λ live.
      rw (chain_root_of-KeptRow x y k, k.tenant)
        (is_occupied-Rewritten x.tenant_id (chain_root_of x) r (o.0 (is_live-KeptRow x y k live))),
  OneLive-Rewritten r o.1,
)

pub ChainsValid-Rewritten :
    {xs ys : List Ticket} → Rewritten xs ys → ChainsValid xs → ChainsValid ys
ChainsValid-Rewritten r v = record {
  keyed = Keyed-Rewritten r v.keyed;
  one_live = OneLive-Rewritten r v.one_live;
}

-- Appending a row with a new id whose chain has no live ticket, if it is live.
has_id-append :
    (id : String) (xs : List Ticket) (t : Ticket)
    → has_id id xs ≡ false
    → str_eq t.id id ≡ false
    → has_id id (xs ++ t ∷ []) ≡ false
unfolding has_id
has_id-append id [] t h e = ground arith
has_id-append id (x ∷ xs) t h e = ground (arith, has_id-append id xs t)

Keyed-append :
    (xs : List Ticket) (t : Ticket) → Keyed xs → has_id t.id xs ≡ false → Keyed (xs ++ t ∷ [])
unfolding has_id
Keyed-append [] t k h = (refl, tt)
Keyed-append (x ∷ xs) t k h = (
  has_id-append x.id xs t k.0 (ground (arith, eq_iff x.id t.id, eq_iff t.id x.id)),
  Keyed-append xs t k.1 (ground arith),
)

is_occupied-append :
    (tenant root : String) (xs : List Ticket) (t : Ticket)
    → is_occupied tenant root xs ≡ false
    → occupies tenant root t ≡ false
    → is_occupied tenant root (xs ++ t ∷ []) ≡ false
unfolding is_occupied
is_occupied-append tenant root [] t h e = ground arith
is_occupied-append tenant root (x ∷ xs) t h e = ground (arith, is_occupied-append tenant root xs t)

-- Two live tickets of one chain occupy it for each other.
occupies_sym :
    (x t : Ticket)
    → is_live x ≡ true
    → (is_live t ≡ true → occupies t.tenant_id (chain_root_of t) x ≡ false)
    → occupies x.tenant_id (chain_root_of x) t ≡ false
unfolding occupies
occupies_sym x t live h = ground (
  arith,
  eq_iff x.tenant_id t.tenant_id,
  eq_iff t.tenant_id x.tenant_id,
  eq_iff (chain_root_of x) (chain_root_of t),
  eq_iff (chain_root_of t) (chain_root_of x),
)

OneLive-append :
    (xs : List Ticket) (t : Ticket)
    → OneLive xs
    → (is_live t ≡ true → is_occupied t.tenant_id (chain_root_of t) xs ≡ false)
    → OneLive (xs ++ t ∷ [])
unfolding is_occupied
OneLive-append [] t o h = (λ z. refl, tt)
OneLive-append (x ∷ xs) t o h = (
  λ live.
      is_occupied-append x.tenant_id (chain_root_of x) xs t (o.0 live)
        (occupies_sym x t live (λ l. ground (arith, h l))),
  OneLive-append xs t o.1 (λ l. ground (arith, h l)),
)

pub ChainsValid-append :
    (xs : List Ticket) (t : Ticket)
    → ChainsValid xs
    → has_id t.id xs ≡ false
    → (is_live t && is_occupied t.tenant_id (chain_root_of t) xs) ≡ false
    → ChainsValid (xs ++ t ∷ [])
ChainsValid-append xs t v h o = record {
  keyed = Keyed-append xs t v.keyed h;
  one_live = OneLive-append xs t v.one_live (λ l. ground arith);
}
