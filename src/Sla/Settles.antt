-- ===== src/Sla/Settles.antt =====
-- src/sla/dwell.sweep.ts: a run of the sweep over the tickets of a tenant.
use nivara_api_nestjs.Sla.Dwell.{
  updates, dwell_tenant, run, left_alone, is_due, Swept, ticket_dwell_window, scheduler_permissions,
  moved_by, settle, settle_rows, sweep,
}
use nivara_api_nestjs.Tenancy.{for_each_tenant-returns}
use nivara_api_nestjs.Realtime.Service.{Announcement}
use nivara_api_nestjs.Tickets.Rows.{Db}
use mathlib.Core.List.{[]}
use nivara_api_nestjs.Shared.{
  [], inl, ◌++◌, inr, arith, Bool-cases, ◌∷◌, false, refl, ◌+◌, none, ◌≤◌, List, eq_iff, some, true,
  ◌≡◌, ℕ, Option, String,
}
use nivara_api_nestjs.Sla.Moves.{is_due-state, sweep-Dwelt, Dwelt, Pairwise}
use nivara_api_nestjs.Domain.{resolved, pending, closed, same_state, TicketState, Ticket}
use nivara_api_nestjs.Tickets.StateMachine.{
  entries_of, row_of, allowed, is_legal, can_transition, enforce_transition, is_rerouted,
  is_relinked, same_text, before_update,
}
use Prim.Native.String.{◌∷◌, String}
use nivara_api_nestjs.Errors.{ok}
use nivara_api_nestjs.Principal.Context.{system}
use mathlib.Core.Option.{none}

pub same_text_self : (a : Option String) → same_text a a ≡ true
same_text_self none = refl
same_text_self (some a) = (eq_iff a a).1 refl

-- The triggers let the moves of the timers through.
before_update-timer :
    (clock : ℕ) (t : Ticket) (from to : TicketState)
    → t.state ≡ from
    → same_state from closed ≡ false
    → is_legal from to ≡ true
    → before_update clock system t (record t { state = to })
      ≡ allowed
          (row_of clock t (record t { state = to }))
          (entries_of clock system t (record t { state = to }))
unfolding before_update is_relinked is_rerouted enforce_transition
before_update-timer clock t from to at live legal =
    rw
      (
        same_text_self t.spawned_from_ticket_id,
        same_text_self t.root_ticket_id,
        same_text_self t.slack_channel_id,
        same_text_self t.slack_thread_ts,
        at,
        live,
        legal,
      )
      (ground arith)

module _ (tenant : String) (now clock : ℕ) where
  settle_rows-returns :
      (from to : TicketState) (ts : List Ticket)
      → same_state from closed ≡ false
      → is_legal from to ≡ true
      → (r : Swept) × (settle_rows tenant now clock from to ts ≡ ok r)
  unfolding settle_rows moved_by
  settle_rows-returns from to [] live legal =
      (record { tickets = []; entries = []; moved = [] }, refl)
  settle_rows-returns from to (t ∷ ts) live legal =
      let (rest, before) = settle_rows-returns from to ts live legal in
      let new = record t { state = to } in
      elim (Bool-cases (is_due tenant from now t)) [
        | inr not_due ↦ (left_alone t rest, rw (before, not_due) refl)
        | inl due ↦ (
          record {
            tickets = row_of clock t new ∷ rest.tickets;
            entries = entries_of clock system t new ++ rest.entries;
            moved = row_of clock t new ∷ rest.moved;
          },
          rw
              (
                before,
                due,
                before_update-timer clock t from to (is_due-state tenant now clock from t due) live
                    legal,
              )
              refl,
        )
      ]

  settle-returns :
      (from to : TicketState) (ts : List Ticket)
      → can_transition from to scheduler_permissions ≡ true
      → same_state from closed ≡ false
      → is_legal from to ≡ true
      → (r : Swept) × (settle tenant now clock from to ts ≡ ok r)
  unfolding settle
  settle-returns from to ts may live legal =
      let (r, e) = settle_rows-returns from to ts live legal in (r, rw may e)

  -- The run of the dwell sweep in a tenant does not throw, and of each ticket of the tenant that
  -- is pending and was silent for more than the dwell window makes a resolved one, of each
  -- resolved one a closed one, and leaves every other ticket as it was, if the instant of the
  -- sweep is at most a dwell window ahead of the clock of the database.
  pub sweep_settles :
      (ts : List Ticket)
      → now ≤ clock + ticket_dwell_window
      → (r : Swept) × (sweep tenant now clock ts ≡ ok r)
        × Pairwise (Dwelt tenant now clock) ts r.tickets
  unfolding sweep can_transition is_legal
  sweep_settles ts le =
      let (a, first) = settle-returns pending resolved ts refl refl refl in
      let (b, second) = settle-returns resolved closed a.tickets refl refl refl in
      let r : Swept = record {
        tickets = b.tickets;
        entries = a.entries ++ b.entries;
        moved = a.moved ++ b.moved;
      } in
      let swept : sweep tenant now clock ts ≡ ok r = rw (first, second) refl in
      (r, swept, sweep-Dwelt tenant now clock ts r le swept)

-- A run over the tenants does not throw, if at no tenant the instant of the sweep is more than a
-- dwell window ahead of the clock.
pub run_returns :
    (now : ℕ) (clock : String → ℕ) (tenants : List String) (db : Db)
    → ((tenant : String) → now ≤ clock tenant + ticket_dwell_window)
    → (told : List Announcement) × ((run now clock tenants db).1 ≡ ok told)
unfolding run dwell_tenant
run_returns now clock tenants db le =
    let total : (tenant : String) (s : Db)
        → (v : Db × List Ticket) × (dwell_tenant now (clock tenant) tenant s ≡ ok v) =
      λ tenant s.
        let (r, e, _) = sweep_settles tenant now (clock tenant) s.tickets (le tenant) in
        ((record s { tickets = r.tickets; audit = s.audit ++ r.entries }, r.moved), rw e refl) in
    let (moved, e) =
      for_each_tenant-returns (λ tenant. dwell_tenant now (clock tenant) tenant) tenants db total in
    (updates moved, rw e refl)
