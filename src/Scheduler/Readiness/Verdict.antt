-- ===== src/Scheduler/Readiness/Verdict.antt =====
-- When the probe of src/scheduler/readiness.ts answers that the process is ready.
use nivara_api_nestjs.Scheduler.Readiness.{
  unavailable, both_up, Bool, scheduler_status, ◌∷◌, true, available, false, some, List, is_stalled,
  ReadinessInput, TickReport, healths, any_stalled, evaluate_readiness, health_of,
}
use nivara_api_nestjs.Shared.{
  if◌then◌else◌, Bool, refl, [], ◌≢◌, inr, ◌*◌, ◌∷◌, ◌⊎◌, All, inl, true, ◌+◌, Option-cases, arith,
  ◌↔◌, ◌≤◌, false, some, List, ◌≡◌, ℕ,
}
use Prim.Native.Nat.{ℕ}

-- A tick is fresh if it ran at most three intervals ago.
abbrev pub IsFresh : ℕ → TickReport → Type 0
IsFresh now t = (last : ℕ) × (t.last_tick_at ≡ some last) × (now ≤ last + t.interval_ms * 3)

health_of-IsFresh :
    (now : ℕ) (t : TickReport) → is_stalled (health_of now t).status ≡ false → IsFresh now t
unfolding health_of
health_of-IsFresh now t h = elim (Option-cases t.last_tick_at) [
  | inl never ↦ absurd (ground arith)
  | inr (last, ran) ↦ (last, ran, ground arith)
]

IsFresh-health_of :
    (now : ℕ) (t : TickReport) → IsFresh now t → is_stalled (health_of now t).status ≡ false
unfolding health_of
IsFresh-health_of now t (last, ran, h) = ground arith

any_stalled_iff :
    (now : ℕ) (ts : List TickReport) → (any_stalled (healths now ts) ≡ false) ↔ All (IsFresh now) ts
unfolding any_stalled healths
any_stalled_iff now [] = (λ h. tt, λ h. refl)
any_stalled_iff now (t ∷ ts) = (
  λ h. (health_of-IsFresh now t (ground arith), (any_stalled_iff now ts).0 (ground arith)),
  λ h. ground (arith, IsFresh-health_of now t h.0, (any_stalled_iff now ts).1 h.1),
)

verdict :
    (now : ℕ) (d e : Bool) (ts : List TickReport)
    → (both_up
          (if d then available else unavailable)
          (scheduler_status e (if e then healths now ts else []))
        ≡ available)
      ↔ ((d ≡ true) × ((e ≡ false) ⊎ ((ts ≢ []) × All (IsFresh now) ts)))
unfolding scheduler_status healths
verdict now false e ts = (λ h. cc, λ h. cc)
verdict now true false ts = (λ h. (refl, inl refl), λ h. refl)
verdict now true true [] = (λ h. cc, λ h. ground arith)
verdict now true true (t ∷ ts) = (
  λ h. (refl, inr (λ z. cc, (any_stalled_iff now (t ∷ ts)).0 (ground arith))),
  λ h. elim (h.1) [ inl off ↦ cc | inr on ↦ ground (arith, (any_stalled_iff now (t ∷ ts)).1 on.1) ],
)

-- The process is ready exactly if the database answers and the scheduler is off, or on with at
-- least one tick and every tick at most three intervals old.
pub evaluate_readiness_iff :
    (i : ReadinessInput)
    → ((evaluate_readiness i).status ≡ available) ↔ (
        (i.database_reachable ≡ true)
        × ((i.scheduler.enabled ≡ false)
            ⊎ ((i.scheduler.ticks ≢ []) × All (IsFresh i.now) i.scheduler.ticks)))
unfolding evaluate_readiness
evaluate_readiness_iff i = verdict i.now i.database_reachable i.scheduler.enabled i.scheduler.ticks
