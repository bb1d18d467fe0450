-- ===== src/Sla/Latching.antt =====
-- What a run of src/sla/sla-breach.sweep.ts latches and announces.

use nivara_api_nestjs.Shared.{
  sym, ◌∙◌, ap, inl, inr, Bool-cases, map, All, ◌++◌, ◌∷◌, str_eq, String, List, [], arith, refl,
  if◌then◌else◌, none, false, some, true, ◌≡◌, Bool, Option, ℕ,
}
use nivara_api_nestjs.Sla.Breach.{
  audit_of, Latched, is_unset, kept, latch_tenant, Returned, breaches_at, latched_by, breaches_in,
  returned, target_of, timer_if, is_breached, latch_rows, latched_timers, is_at, SlaTarget,
  latching, due_first_response, due_resolution,
}
use nivara_api_nestjs.Errors.{ok}
use nivara_api_nestjs.Realtime.Events.{resolution, first_response, SlaBreachSnapshot, SlaTimer}
use nivara_api_nestjs.Tickets.Triggers.{same_state_self}
use nivara_api_nestjs.Sla.Settles.{same_text_self}
use nivara_api_nestjs.Domain.{urgent, high, normal, low, Ticket, same_priority, TicketPriority}
use nivara_api_nestjs.Tickets.StateMachine.{
  allowed, is_edit, entries_of, row_of, enforce_transition, is_rerouted, is_relinked, keep_set,
  before_update, latched,
}
use nivara_api_nestjs.Principal.Context.{system}
use Prim.Native.Nat.{ℕ}

same_priority_self : (p : TicketPriority) → same_priority p p ≡ true
same_priority_self low = refl
same_priority_self normal = refl
same_priority_self high = refl
same_priority_self urgent = refl

keep_set_self : (o : Option ℕ) → keep_set o o ≡ o
keep_set_self none = refl
keep_set_self (some t) = refl

due_unset :
    (now : ℕ) (s : Option SlaTarget) (t : Ticket)
    → due_first_response now s t ≡ true
    → t.first_response_breached_at ≡ none
unfolding due_first_response
due_unset now none t e = absurd (cc)
due_unset now (some s) t e = ground arith

due_unresolved :
    (now : ℕ) (s : Option SlaTarget) (t : Ticket)
    → due_resolution now s t ≡ true
    → t.resolution_breached_at ≡ none
unfolding due_resolution
due_unresolved now none t e = absurd (cc)
due_unresolved now (some s) t e = ground arith

keep_set_due :
    (now : ℕ) (d : Bool) (o : Option ℕ)
    → (d ≡ true → o ≡ none)
    → keep_set o (if d then some now else o) ≡ (if d then some now else o)
keep_set_due now true none f = refl
keep_set_due now true (some t) f = let e = f refl in cc
keep_set_due now false o f = keep_set_self o

is_at_due :
    (now : ℕ) (d : Bool) (o : Option ℕ)
    → is_at o now ≡ false
    → is_at (if d then some now else o) now ≡ d
is_at_due now true o e = ground arith
is_at_due now false o e = e

latched-latching :
    (now : ℕ) (s : Option SlaTarget) (t : Ticket) → latched t (latching now s t) ≡ latching now s t
unfolding latched latching
latched-latching now s t =
    rw
      (
        keep_set_self t.first_response_at,
        keep_set_due now (due_first_response now s t) t.first_response_breached_at
            (due_unset now s t),
        keep_set_due now (due_resolution now s t) t.resolution_breached_at (due_unresolved now s t),
      )
      refl

before_update-latching :
    (clock now : ℕ) (s : Option SlaTarget) (t : Ticket)
    → before_update clock system t (latching now s t) ≡ allowed (latching now s t) []
unfolding before_update is_relinked is_rerouted enforce_transition row_of entries_of is_edit
    latching
before_update-latching clock now s t =
    rw
      (
        same_text_self t.spawned_from_ticket_id,
        same_text_self t.root_ticket_id,
        same_text_self t.slack_channel_id,
        same_text_self t.slack_thread_ts,
        same_text_self t.assignee_id,
        same_state_self t.state,
        same_priority_self t.priority,
      )
      (rw (latched-latching now s t) (ground arith))

module _ (targets : List SlaTarget) (tenant : String) (now clock : ℕ) where
  -- What the sweep is to do to a ticket, and to announce of it.
  abbrev pub swept : Ticket → Ticket
  unfolding latching
  swept t =
      if str_eq t.tenant_id tenant then latching now (target_of targets tenant now clock t) t else t

  abbrev pub due_timers : Ticket → List SlaTimer
  unfolding due_first_response due_resolution
  due_timers t =
      timer_if (due_first_response now (target_of targets tenant now clock t) t) first_response
      ++ timer_if (due_resolution now (target_of targets tenant now clock t) t) resolution

  abbrev pub announced : List Ticket → List SlaBreachSnapshot
  announced [] = []
  announced (t ∷ ts) =
      let rest = announced ts in
      if str_eq t.tenant_id tenant then breaches_at now t.id (due_timers t) ++ rest else rest

  -- No timer of the ticket was latched at the instant of the sweep.
  abbrev pub Fresh : Ticket → Type 0
  Fresh t =
      (is_at t.first_response_breached_at now ≡ false)
      × (is_at t.resolution_breached_at now ≡ false)

  timers-latching :
      (t : Ticket)
      → Fresh t
      → latched_timers (returned (latching now (target_of targets tenant now clock t) t)) now
        ≡ due_timers t
  unfolding latched_timers latching
  timers-latching t fresh =
      let s = target_of targets tenant now clock t in
      rw
        (
          is_at_due now (due_first_response now s t) t.first_response_breached_at fresh.0,
          is_at_due now (due_resolution now s t) t.resolution_breached_at fresh.1,
        )
        refl

  not_breached :
      (t : Ticket)
      → is_breached targets tenant now clock t ≡ false
      → str_eq t.tenant_id tenant ≡ true
      → (due_first_response now (target_of targets tenant now clock t) t ≡ false)
        × (due_resolution now (target_of targets tenant now clock t) t ≡ false)
  unfolding is_breached
  not_breached t calm own =
      let s = target_of targets tenant now clock t in
      let first : due_first_response now s t ≡ false =
        elim (Bool-cases (due_first_response now s t)) [
          | inr idle ↦ idle
          | inl due ↦ let e = rw (own, due, ap is_unset (due_unset now s t due)) at calm in cc
        ] in
      let second : due_resolution now s t ≡ false = elim (Bool-cases (due_resolution now s t)) [
        | inr idle ↦ idle
        | inl due ↦
            let e = rw (own, due, first, ap is_unset (due_unresolved now s t due)) at calm in
            ground arith
      ] in
      (first, second)

  swept_calm :
      (t : Ticket) (ts : List Ticket)
      → is_breached targets tenant now clock t ≡ false
      → (swept t ≡ t) × (announced (t ∷ ts) ≡ announced ts)
  unfolding latching
  swept_calm t ts calm = elim (Bool-cases (str_eq t.tenant_id tenant)) [
    | inr other ↦ (rw other refl, rw other refl)
    | inl own ↦
        let (first, second) = not_breached t calm own in
        (rw (own, first, second) refl, rw (own, first, second) refl)
  ]

  breached_own :
      (t : Ticket)
      → is_breached targets tenant now clock t ≡ true
      → str_eq t.tenant_id tenant ≡ true
  unfolding is_breached
  breached_own t due = ground arith

  latch_rows-Swept :
      (ts : List Ticket)
      → All Fresh ts
      → (r : Returned) × (latch_rows targets tenant now clock ts ≡ ok r)
        × (r.tickets ≡ map swept ts)
        × (r.entries ≡ [])
        × (breaches_in now r.rows ≡ announced ts)
  unfolding latch_rows breaches_in latched_by
  latch_rows-Swept [] fresh =
      (record { tickets = []; entries = []; rows = [] }, refl, refl, refl, refl)
  latch_rows-Swept (t ∷ ts) fresh =
      let (rest, e, tickets, entries, breaches) = latch_rows-Swept ts fresh.1 in
      let s = target_of targets tenant now clock t in
      elim (Bool-cases (is_breached targets tenant now clock t)) [
        | inr calm ↦
            let (same, quiet) = swept_calm t ts calm in
            (kept t rest, rw (e, calm) refl, rw (same, tickets) refl, entries, breaches ∙ sym quiet)
        | inl due ↦
            let own = breached_own t due in
            let new = latching now s t in
            (
              record {
                tickets = new ∷ rest.tickets;
                entries = rest.entries;
                rows = returned new ∷ rest.rows;
              },
              rw (e, due, before_update-latching clock now s t) refl,
              rw (own, tickets) refl,
              entries,
              rw (own, timers-latching t fresh.0, breaches) refl,
            )
      ]

  -- If no ticket has a timer latched at the very instant of the sweep, the run of the breach
  -- sweep in a tenant does not throw, latches at the instant exactly the timers of the tenant's
  -- tickets that are due and not latched, changes nothing else of any ticket, and announces and
  -- audits each of these timers once and no other.
  pub latch_tenant_announces :
      (ts : List Ticket)
      → All Fresh ts
      → (r : Latched) × (latch_tenant targets tenant now clock ts ≡ ok r)
        × (r.tickets ≡ map swept ts)
        × (r.entries ≡ [])
        × (r.breaches ≡ announced ts)
        × (r.audit ≡ audit_of clock tenant (announced ts))
  unfolding latch_tenant
  latch_tenant_announces ts fresh =
      let (rest, e, tickets, entries, breaches) = latch_rows-Swept ts fresh in
      (
        record {
          tickets = rest.tickets;
          entries = rest.entries;
          audit = audit_of clock tenant (breaches_in now rest.rows);
          breaches = breaches_in now rest.rows;
        },
        rw e refl,
        tickets,
        entries,
        breaches,
        ap (audit_of clock tenant) breaches,
      )
