-- ===== src/Conversation/Chain.antt =====
-- The rows that src/conversation/contact-reply.service.ts finds, reopens or spawns: that they are
-- live and of the conversation.
use nivara_api_nestjs.Shared.{
  ◌++◌, false, sym, ap, Option, refl, ◌∙◌, inr, ◌&&◌, [], eq_iff, str_eq, Bool-cases, arith, inl,
  Option-cases, ◌∷◌, ◌≢◌, All, some, true, List, String, ◌≡◌, ℕ,
}
use nivara_api_nestjs.Tickets.Rows.{
  has_id, is_visible, find_ticket, Db, chain_root_of, find_in, is_live,
}
use nivara_api_nestjs.Conversation.{
  closed, Option, ReplyOutcome, is_visible, str_eq, ok, spawn, opened, ◌∷◌, some, transition_in,
  List, String, Db, Ticket, chain_root_of, reply_outcome_for, find_live, in_chain_with,
}
use nivara_api_nestjs.Domain.{closed, same_state, opened, Ticket}
use nivara_api_nestjs.Tickets.TicketService.{transition_in}
use Prim.Native.Nat.{ℕ}
use nivara_api_nestjs.Tickets.Writes.{find_in-facts, Writes-find}
use nivara_api_nestjs.Errors.{ok}
use nivara_api_nestjs.Principal.{RequestPrincipal}
use nivara_api_nestjs.Tickets.Triggers.{same_state-eq}
use nivara_api_nestjs.Tickets.Commits.{Writes-KeptRow}
use nivara_api_nestjs.Tickets.Creations.{begins, continues, Linkage}
use nivara_api_nestjs.Tickets.Transitions.{transition_in_sound, transition_in-Writes}
use nivara_api_nestjs.Principal.Context.{TenantContext}

pub live_of_find_live :
    (ctx : TenantContext) (parent : Ticket) (ts : List Ticket) (live : Ticket)
    → find_live ctx parent ts ≡ some live
    → (is_live live ≡ true) × (in_chain_with parent live ≡ true)
unfolding find_live
live_of_find_live ctx parent [] live e = cc
live_of_find_live ctx parent (t ∷ ts) live e = ground (arith, live_of_find_live ctx parent ts live)

-- The rows of a table whose root ticket other transactions leave alone.
abbrev pub KeepsRoots : TenantContext → Db → Ticket → Type 0
KeepsRoots ctx at t =
    (x : Ticket) → find_ticket ctx t.id at ≡ some x → x.root_ticket_id ≡ t.root_ticket_id

pub find_live-All :
    (P : Ticket → Type 0) (ctx : TenantContext) (parent : Ticket) (ts : List Ticket) (live : Ticket)
    → All P ts
    → find_live ctx parent ts ≡ some live
    → P live
unfolding find_live
find_live-All P ctx parent [] live h e = cc
find_live-All P ctx parent (t ∷ ts) live (h, hs) e =
    elim (Bool-cases (is_visible ctx t && in_chain_with parent t && is_live t)) [
      | inl here ↦ let same : t ≡ live = ground arith in rw (← same) h
      | inr later ↦ find_live-All P ctx parent ts live hs (rw later at e)
    ]

pub find_in-All :
    (P : Ticket → Type 0) (ctx : TenantContext) (id : String) (ts : List Ticket) (t : Ticket)
    → All P ts
    → find_in ctx id ts ≡ some t
    → P t
unfolding find_in
find_in-All P ctx id [] t h e = cc
find_in-All P ctx id (x ∷ xs) t (h, hs) e = elim (Bool-cases (str_eq x.id id && is_visible ctx x)) [
  | inl here ↦ let same : x ≡ t = ground arith in rw (← same) h
  | inr later ↦ find_in-All P ctx id xs t hs (rw later at e)
]

pub in_chain_with_self : (t : Ticket) → in_chain_with t t ≡ true
unfolding in_chain_with chain_root_of
in_chain_with_self t = elim (Option-cases t.root_ticket_id) [
  | inl e ↦ rw e (ground (arith, eq_iff t.id t.id))
  | inr (r, e) ↦ rw e (ground (arith, eq_iff r r))
]

pub in_chain_with-moved :
    (parent x y : Ticket)
    → y.id ≡ x.id
    → y.root_ticket_id ≡ x.root_ticket_id
    → in_chain_with parent x ≡ true
    → in_chain_with parent y ≡ true
unfolding in_chain_with
in_chain_with-moved parent x y i r h = rw (i, r) h

pub not_spawn : (t : Ticket) → is_live t ≡ true → reply_outcome_for t.state ≢ spawn
unfolding is_live reply_outcome_for
not_spawn t h = λ e. ground arith

pub live_of_outcome :
    (t : Ticket) (o : ReplyOutcome) → reply_outcome_for t.state ≡ o → o ≢ spawn → is_live t ≡ true
unfolding is_live reply_outcome_for
live_of_outcome t o e h = elim (Bool-cases (same_state t.state closed)) [
  | inl shut ↦ let final = ap reply_outcome_for (same_state-eq t.state closed shut) in absurd (h cc)
  | inr unshut ↦ rw unshut refl
]

-- A ticket that was reopened.
module _ (now : ℕ) (between : Db → Db) (ctx : TenantContext) (p : RequestPrincipal) (db db' : Db)
    (t addressed : Ticket) where
  pub reopened_lands :
      KeepsRoots ctx (between db) addressed
      → transition_in now between ctx p addressed.id opened db ≡ ok (db', t)
      → (t.id ≡ addressed.id) × (t.root_ticket_id ≡ addressed.root_ticket_id) × (is_live t ≡ true)
  unfolding is_live find_ticket
  reopened_lands keeps e =
      let g = transition_in-Writes now between ctx p addressed.id opened db db' t e in
      let s = transition_in_sound now between ctx p addressed.id opened db db' t e in
      let same_row = Writes-find (λ x. (refl, refl, refl)) g.writes in
      let found = g.found in
      let same : g.writes.row ≡ t = cc in
      let k = Writes-KeptRow (λ x. (refl, refl, refl)) g.writes in
      let at = find_in-facts ctx addressed.id (between db).tickets g.writes.old g.writes.found in
      let state = s.state in
      (
        rw (← same) (k.id ∙ at.0),
        rw (← same) (k.root ∙ keeps g.writes.old g.writes.found),
        rw state refl,
      )

pub in_chain_with-spawned :
    (parent t : Ticket)
    → t.root_ticket_id ≡ some (chain_root_of parent)
    → in_chain_with parent t ≡ true
unfolding in_chain_with
in_chain_with-spawned parent t e =
    rw e (ground (arith, eq_iff (chain_root_of parent) (chain_root_of parent)))

-- Tables in which the root of every ticket is the one that it was given.
abbrev pub Rooted : (String → Option String) → Db → Type 0
Rooted roots db = All (λ t. t.root_ticket_id ≡ roots t.id) db.tickets

-- Transactions that re-parent no ticket.
abbrev pub Steady : (String → Option String) → (Db → Db) → Type 0
Steady roots f = (db : Db) → Rooted roots db → Rooted roots (f db)

pub root_of_found :
    (roots : String → Option String) (ctx : TenantContext) (id : String) (db : Db) (t : Ticket)
    → Rooted roots db
    → find_in ctx id db.tickets ≡ some t
    → t.root_ticket_id ≡ roots id
root_of_found roots ctx id db t h f =
    find_in-All (λ t. t.root_ticket_id ≡ roots t.id) ctx id db.tickets t h f
    ∙ ap roots (find_in-facts ctx id db.tickets t f).0

pub KeepsRoots-Rooted :
    (roots : String → Option String) (ctx : TenantContext) (db : Db) (t : Ticket)
    → Rooted roots db
    → t.root_ticket_id ≡ roots t.id
    → KeepsRoots ctx db t
unfolding find_ticket
KeepsRoots-Rooted roots ctx db t h e x f = root_of_found roots ctx t.id db x h f ∙ sym e

-- A spawned ticket, by what it is linked to, belongs to the conversation of the addressed one.
pub Linkage-in_chain :
    (roots : String → Option String) (ctx : TenantContext) (db : Db) (new t parent : Ticket)
    → Rooted roots db
    → parent.root_ticket_id ≡ roots parent.id
    → new.spawned_from_ticket_id ≡ some parent.id
    → Linkage ctx db new t
    → in_chain_with parent t ≡ true
unfolding find_ticket chain_root_of
Linkage-in_chain roots ctx db new t parent h e s (begins none_given a b c) = absurd (cc)
Linkage-in_chain roots ctx db new t parent h e s (continues q given found root b c) =
    let named : q.id ≡ parent.id = cc in
    let same : q.root_ticket_id ≡ parent.root_ticket_id =
      root_of_found roots ctx q.id db q h found ∙ ap roots named ∙ sym e in
    in_chain_with-spawned parent t (root ∙ ap some (rw (same, named) refl))

pub find_in-append :
    (ctx : TenantContext) (ts : List Ticket) (t : Ticket)
    → has_id t.id ts ≡ false
    → is_visible ctx t ≡ true
    → find_in ctx t.id (ts ++ t ∷ []) ≡ some t
unfolding find_in has_id
find_in-append ctx [] t h v = ground (arith, eq_iff t.id t.id)
find_in-append ctx (x ∷ xs) t h v = ground (arith, find_in-append ctx xs t)
