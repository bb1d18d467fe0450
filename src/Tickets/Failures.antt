-- ===== src/Tickets/Failures.antt =====
-- How `transitionIn` of src/tickets/ticket.service.ts fails.
use nivara_api_nestjs.Tickets.Writes.{KeepsKeys, Writes-find, update_many-Writes}
use nivara_api_nestjs.Tickets.TicketService.{
  read_back, refusal_code, ticket_refusal, rethrow_ticket_refusal, transition_in, settle,
}
use nivara_api_nestjs.Tickets.Rows.{sql_state, find_ticket, update_found, update_many, written, Db}
use nivara_api_nestjs.Principal.Context.{Actor, TenantContext}
use nivara_api_nestjs.Errors.{
  forbidden, not_found, fail, conflict, throw, ok, catch_throw, ErrorCode, Thrown, ◌>>=◌, Result,
}
use nivara_api_nestjs.Shared.{
  false, ◌⊎◌, inr, inl, Bool-cases, zero, arith, true, none, refl, some, suc, Bool, ◌≡◌, String,
  Option, ℕ,
}
use nivara_api_nestjs.Tickets.StateMachine.{
  enforce_transition, can_transition, allowed, refused, before_update, Verdict,
}
use nivara_api_nestjs.Domain.{same_state, TicketState, Ticket}
use nivara_api_nestjs.Authz.Permissions.{permissions_for}
use nivara_api_nestjs.Principal.{RequestPrincipal}
use Prim.Native.Nat.{suc, ℕ}

abbrev pub NoSuchTicket : TenantContext → String → Db → Thrown → Type 0
NoSuchTicket ctx id db e = (find_ticket ctx id db ≡ none) × (e ≡ fail not_found)

pub record Failed (ctx : TenantContext) (p : RequestPrincipal) (id : String) (to : TicketState)
    (read : Db) (e : Thrown) : Type 0 where
  pub current : Ticket
  pub was_read : find_ticket ctx id read ≡ some current
  pub reason :
      ((can_transition current.state to (permissions_for p) ≡ false) × (e ≡ fail forbidden))
      ⊎ ((can_transition current.state to (permissions_for p) ≡ true) × (e ≡ fail conflict))

refused-codes :
    (now : ℕ) (actor : Actor) (old new : Ticket) (code : String)
    → before_update now actor old new ≡ refused code
    → (code ≡ "TK001") ⊎ (code ≡ "TK002") ⊎ (code ≡ "TK004") ⊎ (code ≡ "TK005")
unfolding before_update enforce_transition
refused-codes now actor old new code e = ground arith

refused-conflict :
    (code : String)
    → (code ≡ "TK001") ⊎ (code ≡ "TK002") ⊎ (code ≡ "TK004") ⊎ (code ≡ "TK005")
    → rethrow_ticket_refusal (sql_state code) ≡ fail conflict
unfolding rethrow_ticket_refusal ticket_refusal refusal_code
refused-conflict code (inl e) = rw e refl
refused-conflict code (inr (inl e)) = rw e refl
refused-conflict code (inr (inr (inl e))) = rw e refl
refused-conflict code (inr (inr (inr e))) = rw e refl

module _ (now : ℕ) (ctx : TenantContext) (id : String) (where' : Ticket → Bool)
    (set : Ticket → Ticket) (db : Db) where
  written-throws :
      (old : Ticket) (v : Verdict) (e : Thrown)
      → before_update now ctx.actor old (set old) ≡ v
      → written id db v ≡ throw e
      → rethrow_ticket_refusal e ≡ fail conflict
  unfolding written
  written-throws old (refused code) e b h =
      let same : sql_state code ≡ e = cc in
      rw (← same) (refused-conflict code (refused-codes now ctx.actor old (set old) code b))
  written-throws old (allowed row entries) e b h = cc

  update_found-throws :
      (o : Option Ticket) (e : Thrown)
      → update_found now ctx id where' set db o ≡ throw e
      → rethrow_ticket_refusal e ≡ fail conflict
  unfolding update_found
  update_found-throws none e h = cc
  update_found-throws (some old) e h = elim (Bool-cases (where' old)) [
    | inl met ↦ written-throws old (before_update now ctx.actor old (set old)) e refl (rw met at h)
    | inr unmet ↦ let h' = (rw unmet at h) in cc
  ]

  update_many-throws :
      (e : Thrown)
      → update_many now ctx id where' set db ≡ throw e
      → rethrow_ticket_refusal e ≡ fail conflict
  unfolding update_many
  update_many-throws e h = update_found-throws (find_ticket ctx id db) e h

  -- A statement that went through and wrote a row that is found afterwards is not settled by a
  -- throw, so a throw says that no row was written.
  update_many-settle :
      KeepsKeys set
      → (code : ErrorCode) (r : Db × ℕ) (e : Thrown) → update_many now ctx id where' set db ≡ ok r
      → settle code ctx id r ≡ throw e
      → e ≡ fail code
  unfolding settle read_back
  update_many-settle same code (db', zero) e u h = cc
  update_many-settle same code (db', suc n) e u h =
      let w = update_many-Writes now ctx id where' set db db' n u in
      let h' = (rw (Writes-find same w) at h) in cc

  -- Every throw of a guarded update.
  pub guarded-throws :
      KeepsKeys set
      → (code : ErrorCode) (u : Result (Db × ℕ)) (e : Thrown)
      → update_many now ctx id where' set db ≡ u
      → (catch_throw u rethrow_ticket_refusal >>= settle code ctx id) ≡ throw e
      → (e ≡ fail conflict) ⊎ (e ≡ fail code)
  guarded-throws same code (ok r) e u h = inr (update_many-settle same code r e u h)
  guarded-throws same code (throw x) e u h = let thrown = update_many-throws x u in inl cc

transition_of_current :
    (now : ℕ) (between : Db → Db) (ctx : TenantContext) (p : RequestPrincipal) (id : String)
    (to : TicketState) (db : Db) (e : Thrown) (o : Option Ticket)
    → find_ticket ctx id db ≡ o
    → transition_in now between ctx p id to db ≡ throw e
    → NoSuchTicket ctx id db e ⊎ Failed ctx p id to db e
unfolding transition_in
transition_of_current now between ctx p id to db e none f h = let h' = (rw f at h) in inl (f, cc)
transition_of_current now between ctx p id to db e (some current) f h =
    let h' = (rw f at h) in
    inr (record {
      current = current;
      was_read = f;
      reason = elim (Bool-cases (can_transition current.state to (permissions_for p))) [
        | inr refused' ↦ let h'' = (rw refused' at h') in inl (refused', cc)
        | inl granted ↦
            let h'' = (rw granted at h') in
            inr (
              granted,
              elim (guarded-throws now ctx id (λ (x : Ticket). same_state x.state current.state)
                  (λ (x : Ticket). record x { state = to; updated_at = now }) (between db)
                  (λ x. (refl, refl, refl)) conflict _ e refl h'') [ inl a ↦ a | inr a ↦ a ],
            )
      ];
    })

-- A transition that fails does so in one of three ways: the ticket is not visible and the code is
-- not_found, the principal may not make the move and the code is forbidden, or it may and the
-- code is conflict.
pub transition_in_fails :
    (now : ℕ) (between : Db → Db) (ctx : TenantContext) (p : RequestPrincipal) (id : String)
    (to : TicketState) (db : Db) (e : Thrown)
    → transition_in now between ctx p id to db ≡ throw e
    → NoSuchTicket ctx id db e ⊎ Failed ctx p id to db e
transition_in_fails now between ctx p id to db e h =
    transition_of_current now between ctx p id to db e (find_ticket ctx id db) refl h
