-- ===== src/Conversation/Landing.antt =====
-- That a reply lands (src/conversation/contact-reply.service.ts, `targetFor`).
use nivara_api_nestjs.Tickets.Rows.{has_id, find_ticket, Db, is_live}
use nivara_api_nestjs.Conversation.Chain.{
  find_live-All, in_chain_with-moved, in_chain_with_self, Rooted, Steady, root_of_found,
  KeepsRoots-Rooted, Linkage-in_chain, find_in-append, live_of_find_live, live_of_outcome,
  reopened_lands, KeepsRoots, not_spawn,
}
use nivara_api_nestjs.Shared.{
  suc, none, Option, refl, ◌≢◌, some, true, String, ◌≡◌, ℕ, ◌∙◌, ap, false,
}
use nivara_api_nestjs.Conversation.{
  rethrow_chain_conflict, spawn_or_join_live, target_for, Option, reopen, append, catch_throw,
  requester, ReplyOutcome, spawn_input, Result, create_in, target_by, TicketSource,
  ContactPrincipal, ReplyTarget, ok, spawn, opened, some, transition_in, String, Db, Ticket,
  reply_outcome_for, find_live, in_chain_with, Meanwhile,
}
use nivara_api_nestjs.Domain.{TicketSource, opened, Ticket}
use nivara_api_nestjs.Tickets.TicketService.{
  rethrow_chain_conflict, new_ticket, create_in, transition_in,
}
use Prim.Native.Nat.{suc, ℕ}
use nivara_api_nestjs.Tickets.Writes.{catch_throw-eq-ok, bind-eq-ok}
use nivara_api_nestjs.Errors.{catch_throw, Result, ok}
use nivara_api_nestjs.Principal.{tenant_of, requester, ContactPrincipal}
use nivara_api_nestjs.Principal.Context.{TenantContext}
use nivara_api_nestjs.Tickets.Creations.{create_in-Created}
use nivara_api_nestjs.Tickets.Transitions.{transition_in_sound}

-- What a reply lands on, as `targetFor` last read or wrote it.
abbrev pub Lands : Ticket → ReplyTarget → Type 0
Lands addressed target =
    (is_live target.ticket ≡ true) × (in_chain_with addressed target.ticket ≡ true)

-- A ticket that was reopened or spawned is in the tables.
abbrev pub Stands : TenantContext → Db → ReplyTarget → Type 0
Stands ctx db target =
    target.landing ≢ append → find_ticket ctx target.ticket.id db ≡ some target.ticket

-- No transaction that commits meanwhile re-parents a ticket.
pub record Undisturbed (roots : String → Option String) (meanwhile : Meanwhile) : Type 0 where
  pub search : Steady roots meanwhile.before_search
  pub write : Steady roots meanwhile.before_write
  pub between : Steady roots meanwhile.between

module _ (id : String) (now : ℕ) (meanwhile : Meanwhile) (ctx : TenantContext)
    (p : ContactPrincipal) (source : TicketSource) where
  abbrev Again : Type 0
  Again = Ticket → Db → Result (Db × ReplyTarget)

  reopened-Lands :
      (parent live : Ticket) (db db' : Db) (t : Ticket)
      → in_chain_with parent live ≡ true
      → KeepsRoots ctx (meanwhile.between db) live
      → transition_in now meanwhile.between ctx (requester p) live.id opened db ≡ ok (db', t)
      → Lands parent (record { ticket = t; landing = reopen })
        × Stands ctx db' (record { ticket = t; landing = reopen })
  reopened-Lands parent live db db' t c keeps moved =
      let l = reopened_lands now meanwhile.between ctx (requester p) db db' t live keeps moved in
      let s =
        transition_in_sound now meanwhile.between ctx (requester p) live.id opened db db' t moved in
      (
        (l.2, in_chain_with-moved parent live t l.0 l.1 c),
        λ _. ap (λ i. find_ticket ctx i db') l.0 ∙ s.reads_back,
      )

  spawned-Lands :
      (roots : String → Option String) (parent : Ticket) (db db' : Db) (t : Ticket)
      → Rooted roots db
      → parent.root_ticket_id ≡ roots parent.id
      → create_in id now ctx (requester p) (spawn_input id now meanwhile ctx p source parent) db
        ≡ ok (db', t)
      → Lands parent (record { ticket = t; landing = spawn })
        × Stands ctx db' (record { ticket = t; landing = spawn })
  unfolding is_live new_ticket spawn_input find_ticket
  spawned-Lands roots parent db db' t h r made =
      let input = spawn_input id now meanwhile ctx p source parent in
      let new = new_ticket id now (tenant_of (requester p)) input in
      let c = create_in-Created id now ctx (requester p) input db db' t made in
      let born = c.born in
      let fresh : has_id t.id db.tickets ≡ false = rw c.named c.fresh in
      let tables = ap (λ x. x.tickets) c.tables in
      (
        (rw born refl, Linkage-in_chain roots ctx db new t parent h r refl c.linkage),
        λ _. rw tables (find_in-append ctx db.tickets t fresh c.seen),
      )

  -- A live ticket of the chain, whatever the fuel that is left.
  live-Lands :
      (roots : String → Option String) (again : Again) (parent live : Ticket) (db db' : Db)
      (target : ReplyTarget) (o : ReplyOutcome)
      → Undisturbed roots meanwhile
      → Rooted roots db
      → live.root_ticket_id ≡ roots live.id
      → reply_outcome_for live.state ≡ o
      → is_live live ≡ true
      → in_chain_with parent live ≡ true
      → target_by id now meanwhile ctx p source again live db o ≡ ok (db', target)
      → Lands parent target × Stands ctx db' target
  unfolding target_by
  live-Lands roots again parent live db db' target append u rooted r o h c e =
      let same : record { ticket = live; landing = append } ≡ target = cc in
      rw (← same) ((h, c), λ other. absurd (other refl))
  live-Lands roots again parent live db db' target spawn u rooted r o h c e =
      absurd (not_spawn live h o)
  live-Lands roots again parent live db db' target reopen u rooted r o h c e =
      let at = meanwhile.before_write db in
      let (q, moved, last) =
        bind-eq-ok (transition_in now meanwhile.between ctx (requester p) live.id opened at) _ e in
      let keeps =
        KeepsRoots-Rooted roots ctx (meanwhile.between at) live (u.between at (u.write db rooted))
          r in
      let l = reopened-Lands parent live at q.0 q.1 c keeps moved in
      let same : record { ticket = q.1; landing = reopen } ≡ target = cc in
      let tables : q.0 ≡ db' = cc in (rw (← same) l.0, rw (← same, ← tables) l.1)

  joined-Lands :
      (roots : String → Option String) (fuel : ℕ) (parent : Ticket) (db db' : Db)
      (target : ReplyTarget) (o : Option Ticket)
      → Undisturbed roots meanwhile
      → Rooted roots db
      → parent.root_ticket_id ≡ roots parent.id
      → find_live ctx parent db.tickets ≡ o
      → spawn_or_join_live id now meanwhile ctx p source
          (λ live at. target_for id now meanwhile ctx p source (suc fuel) live at)
          parent
          db
          o
        ≡ ok (db', target)
      → Lands parent target × Stands ctx db' target
  unfolding spawn_or_join_live target_for
  joined-Lands roots fuel parent db db' target (some live) u rooted r f e =
      let (h, c) = live_of_find_live ctx parent db.tickets live f in
      live-Lands roots (λ x at. target_for id now meanwhile ctx p source fuel x at) parent live db
        db' target (reply_outcome_for live.state) u rooted
        (find_live-All (λ t. t.root_ticket_id ≡ roots t.id) ctx parent db.tickets live rooted f)
        refl h c e
  joined-Lands roots fuel parent db db' target none u rooted r f e =
      let input = spawn_input id now meanwhile ctx p source parent in
      let at = meanwhile.before_write db in
      let (q, made, last) =
        bind-eq-ok
          (catch_throw (create_in id now ctx (requester p) input at) rethrow_chain_conflict) _ e in
      let l = spawned-Lands roots parent at q.0 q.1 (u.write db rooted) r (
        catch_throw-eq-ok (create_in id now ctx (requester p) input at) rethrow_chain_conflict
          made) in
      let same : record { ticket = q.1; landing = spawn } ≡ target = cc in
      let tables : q.0 ≡ db' = cc in (rw (← same) l.0, rw (← same, ← tables) l.1)

  landing_of :
      (roots : String → Option String) (fuel : ℕ) (addressed : Ticket) (db db' : Db)
      (target : ReplyTarget) (o : ReplyOutcome)
      → Undisturbed roots meanwhile
      → Rooted roots db
      → addressed.root_ticket_id ≡ roots addressed.id
      → reply_outcome_for addressed.state ≡ o
      → target_by id now meanwhile ctx p source
          (λ live at. target_for id now meanwhile ctx p source (suc fuel) live at)
          addressed
          db
          o
        ≡ ok (db', target)
      → Lands addressed target × Stands ctx db' target
  unfolding target_by
  landing_of roots fuel addressed db db' target spawn u rooted r o e =
      let at = meanwhile.before_search db in
      joined-Lands roots fuel addressed at db' target (find_live ctx addressed at.tickets) u
        (u.search db rooted) r refl e
  landing_of roots fuel addressed db db' target append u rooted r o e =
      live-Lands roots (λ x at. target_for id now meanwhile ctx p source (suc fuel) x at) addressed
        addressed db db' target append u rooted r o (live_of_outcome addressed append o (λ z. cc))
        (in_chain_with_self addressed) e
  landing_of roots fuel addressed db db' target reopen u rooted r o e =
      live-Lands roots (λ x at. target_for id now meanwhile ctx p source (suc fuel) x at) addressed
        addressed db db' target reopen u rooted r o (live_of_outcome addressed reopen o (λ z. cc))
        (in_chain_with_self addressed) e

  -- If no other transaction re-parents a ticket, a `targetFor` that returns gives a ticket of the
  -- conversation of the addressed one that was not closed when it was last read or written,
  -- whatever else other transactions commit between its statements; and a ticket that was
  -- reopened or spawned stands in the tables as it is returned.
  pub target_for-Lands :
      (roots : String → Option String) (fuel : ℕ) (addressed : Ticket) (db db' : Db)
      (target : ReplyTarget)
      → Undisturbed roots meanwhile
      → Rooted roots db
      → find_ticket ctx addressed.id db ≡ some addressed
      → target_for id now meanwhile ctx p source (suc (suc fuel)) addressed db ≡ ok (db', target)
      → Lands addressed target × Stands ctx db' target
  unfolding target_for find_ticket
  target_for-Lands roots fuel addressed db db' target u rooted found e =
      landing_of roots fuel addressed db db' target (reply_outcome_for addressed.state) u rooted
        (root_of_found roots ctx addressed.id db addressed rooted found) refl e

  by_outcome :
      (a b : Again) (live : Ticket) (db : Db) (o : ReplyOutcome)
      → o ≢ spawn
      → target_by id now meanwhile ctx p source a live db o
        ≡ target_by id now meanwhile ctx p source b live db o
  unfolding target_by
  by_outcome a b live db append h = refl
  by_outcome a b live db reopen h = refl
  by_outcome a b live db spawn h = absurd (h refl)

  joined_alike :
      (fuel : ℕ) (parent : Ticket) (db : Db) (o : Option Ticket)
      → find_live ctx parent db.tickets ≡ o
      → spawn_or_join_live id now meanwhile ctx p source
          (λ live at. target_for id now meanwhile ctx p source (suc fuel) live at)
          parent
          db
          o
        ≡ spawn_or_join_live id now meanwhile ctx p source
            (λ live at. target_for id now meanwhile ctx p source 1 live at)
            parent
            db
            o
  unfolding spawn_or_join_live target_for
  joined_alike fuel parent db none f = refl
  joined_alike fuel parent db (some live) f =
      by_outcome (λ x at. target_for id now meanwhile ctx p source fuel x at)
        (λ x at. target_for id now meanwhile ctx p source 0 x at) live db
        (reply_outcome_for live.state)
        (not_spawn live (live_of_find_live ctx parent db.tickets live f).0)

  alike :
      (fuel : ℕ) (addressed : Ticket) (db : Db) (o : ReplyOutcome)
      → target_by id now meanwhile ctx p source
          (λ live at. target_for id now meanwhile ctx p source (suc fuel) live at)
          addressed
          db
          o
        ≡ target_by id now meanwhile ctx p source
            (λ live at. target_for id now meanwhile ctx p source 1 live at)
            addressed
            db
            o
  unfolding target_by
  alike fuel addressed db append = refl
  alike fuel addressed db reopen = refl
  alike fuel addressed db spawn =
      let at = meanwhile.before_search db in
      joined_alike fuel addressed at (find_live ctx addressed at.tickets) refl

  -- A reply turns to a live ticket of the chain once at most: with a fuel of two calls
  -- `targetFor` gives the result that any larger fuel gives.
  pub target_for_settles :
      (fuel : ℕ) (addressed : Ticket) (db : Db)
      → target_for id now meanwhile ctx p source (suc (suc fuel)) addressed db
        ≡ target_for id now meanwhile ctx p source 2 addressed db
  unfolding target_for
  target_for_settles fuel addressed db = alike fuel addressed db (reply_outcome_for addressed.state)
