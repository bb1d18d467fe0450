-- ===== src/Sla/Moves.antt =====
-- What a run of src/sla/dwell.sweep.ts does to each ticket.
use nivara_api_nestjs.Shared.{
  sym, refl, ◌+◌, ◌∙◌, ap, ◌≤◌, inl, inr, Bool-cases, arith, true, false, ◌∷◌, ◌≡◌, [], List, ℕ,
  String,
}
use nivara_api_nestjs.Sla.Dwell.{
  ticket_dwell_window, scheduler_permissions, moved_by, Swept, settle_rows, settle, sweep, is_due,
}
use nivara_api_nestjs.Tickets.StateMachine.{
  refused, Verdict, can_transition, allowed, before_update, AuditEntry, row_of,
}
use nivara_api_nestjs.Domain.{closed, resolved, pending, TicketState, same_state, Ticket}
use nivara_api_nestjs.Errors.{throw, Result, ok}
use nivara_api_nestjs.Tickets.Triggers.{
  before_update-Allows, same_state-eq, before_update-eq-allowed,
}
use nivara_api_nestjs.Principal.Context.{system}
use nivara_api_nestjs.Tickets.Writes.{bind-eq-ok}
use Prim.Native.String.{[], String}

row_of-last_activity :
    (clock : ℕ) (old new : Ticket)
    → same_state new.state old.state ≡ false
    → (row_of clock old new).last_activity_at ≡ clock
unfolding row_of
row_of-last_activity clock old new moved = ground arith

-- A row under one timer.
pub data Timed (tenant : String) (now clock : ℕ) (from to : TicketState) (t t' : Ticket)
    : Type 0 where
  early : is_due tenant from now t ≡ false → t' ≡ t → Timed tenant now clock from to t t'
  timely :
      is_due tenant from now t ≡ true
      → t'.state ≡ to
      → t'.last_activity_at ≡ clock
      → Timed tenant now clock from to t t'

pub data Pairwise (P : Ticket → Ticket → Type 0) : List Ticket → List Ticket → Type 0 where
  no_tickets : Pairwise P [] []
  pair :
      {t t' : Ticket} {ts ts' : List Ticket}
      → P t t'
      → Pairwise P ts ts'
      → Pairwise P (t ∷ ts) (t' ∷ ts')

abbrev tickets_of : Result Swept → List Ticket
tickets_of (throw e) = []
tickets_of (ok r) = r.tickets

module _ (tenant : String) (now clock : ℕ) where
  pub is_due-state :
      (from : TicketState) (t : Ticket) → is_due tenant from now t ≡ true → t.state ≡ from
  unfolding is_due
  is_due-state from t due = same_state-eq t.state from ground arith

  moved-Timed :
      (from to : TicketState) (t row : Ticket) (entries : List AuditEntry)
      → same_state to from ≡ false
      → is_due tenant from now t ≡ true
      → before_update clock system t (record t { state = to }) ≡ allowed row entries
      → Timed tenant now clock from to t row
  moved-Timed from to t row entries differ due e =
      let (same, _, _, _, _) =
        before_update-eq-allowed clock system t (record t { state = to }) row entries e in
      let allows = before_update-Allows clock system t (record t { state = to }) row entries e in
      let moves : same_state to t.state ≡ false =
        ap (same_state to) (is_due-state from t due) ∙ differ in
      timely due allows.state (
        ap (λ x. x.last_activity_at) same
        ∙ row_of-last_activity clock t (record t { state = to }) moves)

  moved_by-Timed :
      (from to : TicketState) (t : Ticket) (ts : List Ticket) (rest r : Swept) (v : Verdict)
      → same_state to from ≡ false
      → is_due tenant from now t ≡ true
      → Pairwise (Timed tenant now clock from to) ts rest.tickets
      → before_update clock system t (record t { state = to }) ≡ v
      → moved_by v rest ≡ ok r
      → Pairwise (Timed tenant now clock from to) (t ∷ ts) r.tickets
  unfolding moved_by
  moved_by-Timed from to t ts rest r (refused code) differ due tail b e = cc
  moved_by-Timed from to t ts rest r (allowed row es) differ due tail b e =
      let tickets : row ∷ rest.tickets ≡ r.tickets = ap tickets_of e in
      rw (← tickets) (pair (moved-Timed from to t row es differ due b) tail)

  settle_rows-Timed :
      (from to : TicketState) (ts : List Ticket) (r : Swept)
      → same_state to from ≡ false
      → settle_rows tenant now clock from to ts ≡ ok r
      → Pairwise (Timed tenant now clock from to) ts r.tickets
  unfolding settle_rows
  settle_rows-Timed from to [] r differ e =
      let tickets : [] ≡ r.tickets = ap tickets_of e in rw (← tickets) no_tickets
  settle_rows-Timed from to (t ∷ ts) r differ e =
      let (rest, before, last) = bind-eq-ok (settle_rows tenant now clock from to ts) _ e in
      let tail = settle_rows-Timed from to ts rest differ before in
      elim (Bool-cases (is_due tenant from now t)) [
        | inr not_due ↦
            let left = rw not_due at last in
            let tickets : t ∷ rest.tickets ≡ r.tickets = ap tickets_of left in
            rw (← tickets) (pair (early not_due refl) tail)
        | inl due ↦
            moved_by-Timed from to t ts rest r
              (before_update clock system t (record t { state = to })) differ due tail refl
              (rw due at last)
      ]

  settle-Timed :
      (from to : TicketState) (ts : List Ticket) (r : Swept)
      → same_state to from ≡ false
      → settle tenant now clock from to ts ≡ ok r
      → Pairwise (Timed tenant now clock from to) ts r.tickets
  unfolding settle
  settle-Timed from to ts r differ e =
      elim (Bool-cases (can_transition from to scheduler_permissions)) [
        | inr refused' ↦ let e' = (rw refused' at e) in cc
        | inl may ↦ settle_rows-Timed from to ts r differ (rw may at e)
      ]

  -- A ticket under the whole run.
  pub data Dwelt (t t' : Ticket) : Type 0 where
    stays :
        is_due tenant pending now t ≡ false
        → is_due tenant resolved now t ≡ false
        → t' ≡ t
        → Dwelt t t'
    resolves : is_due tenant pending now t ≡ true → t'.state ≡ resolved → Dwelt t t'
    closes : is_due tenant resolved now t ≡ true → t'.state ≡ closed → Dwelt t t'

  fresh-not_due :
      (t : Ticket)
      → now ≤ clock + ticket_dwell_window
      → t.last_activity_at ≡ clock
      → is_due tenant resolved now t ≡ false
  unfolding is_due
  fresh-not_due t le e = ground arith

  Dwelt-both :
      {t u v : Ticket}
      → now ≤ clock + ticket_dwell_window
      → Timed tenant now clock pending resolved t u
      → Timed tenant now clock resolved closed u v
      → Dwelt t v
  Dwelt-both {t} le (early a same) (early b same') =
      stays a (ap (is_due tenant resolved now) (sym same) ∙ b) (same' ∙ same)
  Dwelt-both {t} le (early a same) (timely b moved at) =
      closes (ap (is_due tenant resolved now) (sym same) ∙ b) moved
  Dwelt-both {t} {u} le (timely a moved at) (early b same) =
      resolves a (ap (λ x. x.state) same ∙ moved)
  Dwelt-both {t} {u} le (timely a moved at) (timely b moved' at') =
      absurd (let late = fresh-not_due u le at in ground arith)

  Pairwise-both :
      {ts us vs : List Ticket}
      → now ≤ clock + ticket_dwell_window
      → Pairwise (Timed tenant now clock pending resolved) ts us
      → Pairwise (Timed tenant now clock resolved closed) us vs
      → Pairwise Dwelt ts vs
  Pairwise-both le no_tickets no_tickets = no_tickets
  Pairwise-both le (pair p ps) (pair q qs) = pair (Dwelt-both le p q) (Pairwise-both le ps qs)

  pub sweep-Dwelt :
      (ts : List Ticket) (r : Swept)
      → now ≤ clock + ticket_dwell_window
      → sweep tenant now clock ts ≡ ok r
      → Pairwise Dwelt ts r.tickets
  unfolding sweep
  sweep-Dwelt ts r le e =
      let (a, first, e') = bind-eq-ok (settle tenant now clock pending resolved ts) _ e in
      let (b, second, last) = bind-eq-ok (settle tenant now clock resolved closed a.tickets) _ e' in
      let tickets : b.tickets ≡ r.tickets = ap tickets_of last in
      rw (← tickets) (
        Pairwise-both le (settle-Timed pending resolved ts a refl first)
          (settle-Timed resolved closed a.tickets b refl second))
