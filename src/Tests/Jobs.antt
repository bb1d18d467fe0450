-- ===== src/Tests/Jobs.antt =====
-- Backoff, the readiness probe, the job table and the drainer.
use nivara_api_nestjs.Shared.{
  List, filter_by, All, ◌≢◌, [], arith, str_eq, ◌-◌, ◌⊎◌, if◌then◌else◌, some, ◌<◌, ◌↔◌, ◌∷◌, false,
  refl, ◌*◌, Bool, Option, none, pos, true, ◌≡◌, ◌≤◌, String, includes, ◌+◌,
}
use nivara_api_nestjs.Scheduler.Drainer.{settle_failure, committed, Handler, run, Environment, tick}
use nivara_api_nestjs.Scheduler.Queue.{
  complete, ids, ready, dead, is_claimable, activate, enqueue, claim, fail, EnqueueInput, Job,
}
use nivara_api_nestjs.Scheduler.Queue.Lifecycle.{
  completes, claims, enqueues, fail_settles, start, next, Reach-TableValid, TableValid,
}
use nivara_api_nestjs.Scheduler.Queue.Leases.{claims_disjoint, further, at_once}
use nivara_api_nestjs.Scheduler.Readiness.Verdict.{evaluate_readiness_iff, IsFresh}
use nivara_api_nestjs.Scheduler.Drainer.Settling.{run_settles, Settled}
use nivara_api_nestjs.Scheduler.Queue.Claims.{claim_sound, claimed_ids, find_job}
use nivara_api_nestjs.Scheduler.Backoff.{next_run_after_bounds, next_run_after, nominal_ms}
use Prim.Native.String.{[], String}
use nivara_api_nestjs.Tests.Samples.{acme, first_attempt, ready_job}
use nivara_api_nestjs.Scheduler.Readiness.{available, ReadinessInput, evaluate_readiness}

next_run_after_bounds_example :
    (1000 + 4000 ≤ next_run_after 2 1000 3 4)
    × (next_run_after 2 1000 3 4 ≤ 1000 + 1080000)
    × (nominal_ms 2 * 4 < (next_run_after 2 1000 3 4 - 1000 + 1) * 5)
    × ((next_run_after 2 1000 3 4 - 1000) * 5 ≤ nominal_ms 2 * 6)
next_run_after_bounds_example = next_run_after_bounds 2 1000 3 4 (omega arith)

-- The second attempt waits ten seconds, and a draw of 3 / 4 adds a tenth.
second_delay : next_run_after 2 1000 3 4 ≡ 12000
unfolding next_run_after
second_delay = refl

abbrev probe : ReadinessInput
probe = record {
  now = 400;
  database_reachable = true;
  redis = record { configured = true; reachable = false };
  scheduler = record {
    enabled = true;
    ticks = record { name = "drain"; last_tick_at = some 100; interval_ms = 100 } ∷ [];
  };
}

evaluate_readiness_iff_example : ((evaluate_readiness probe).status ≡ available) ↔ (
    (probe.database_reachable ≡ true)
    × ((probe.scheduler.enabled ≡ false)
        ⊎ ((probe.scheduler.ticks ≢ []) × All (IsFresh 400) probe.scheduler.ticks)))
evaluate_readiness_iff_example = evaluate_readiness_iff probe

-- Redis is down and the tick is three intervals old, and the process is ready.
still_ready : (evaluate_readiness probe).status ≡ available
unfolding evaluate_readiness
still_ready = refl

abbrev nobody : String → Bool
nobody id = false

claim_sound_example :
    (find_job "j-1" (claim nobody 200 (pos 5) (ready_job ∷ [])).0 ≡ some ready_job)
    ⊎ ((find_job "j-1" (claim nobody 200 (pos 5) (ready_job ∷ [])).0
          ≡ some (activate 200 ready_job))
        × (is_claimable 200 ready_job ≡ true)
        × (nobody "j-1" ≡ false))
claim_sound_example =
    claim_sound nobody 200 (pos 5) (ready_job ∷ []) "j-1" ready_job
      (unfold ids includes in (refl, tt)) (unfold find_job in refl)

abbrev input : EnqueueInput
input = record { kind = "slack.post"; payload = "{}"; run_after = none; max_attempts = none }

-- Meanwhile another job is enqueued and claimed, and the first one is completed.
abbrev busy_jobs : List Job
busy_jobs =
    complete "j-1" 260
      (claim nobody 250 (pos 5)
        (enqueue "j-2" acme 220 input (claim nobody 200 (pos 5) (ready_job ∷ [])).0)).0

ready_jobs-TableValid : TableValid (ready_job ∷ [])
ready_jobs-TableValid = record {
  distinct = unfold ids includes in (refl, tt);
  rows = (record { held = λ e. cc; free = λ h. refl }, tt);
}

claims_disjoint_example :
    includes (claimed_ids (claim nobody 300 (pos 0) busy_jobs).1) "j-1" ≡ false
unfolding filter_by
claims_disjoint_example =
    claims_disjoint nobody nobody 200 300 (pos 5) (pos 0) (ready_job ∷ []) busy_jobs "j-1"
      ready_jobs-TableValid (unfold claim filter_by includes in refl)
      (further
        (further
          (further at_once (enqueues "j-2" acme 220 input (unfold claim ids includes in refl)) tt)
          (claims nobody 250 (pos 5)) tt)
        (completes "j-1" 260) tt)
      (omega arith)

Reach-TableValid_example : TableValid (claim nobody 200 (pos 5) (enqueue "j-1" acme 100 input [])).0
Reach-TableValid_example = Reach-TableValid (
    next (next start (enqueues "j-1" acme 100 input (unfold ids includes in refl)))
      (claims nobody 200 (pos 5)))

fail_settles_example :
    (j' : Job) × (find_job "j-1"
        (fail first_attempt "refused" 200 1 2 (activate 200 ready_job ∷ [])).0
      ≡ some j')
    × (j'.last_error ≡ some "refused")
    × (5 ≤ 1 → (j'.status ≡ dead) × (is_claimable 5000 j' ≡ false))
    × (1 < 5
        → (j'.status ≡ ready)
          × (5000 < 200 + 4000 → is_claimable 5000 j' ≡ false)
          × (200 + 1080000 ≤ 5000 → is_claimable 5000 j' ≡ true))
    × ((x : String)
        → str_eq x "j-1" ≡ false
        → find_job x (fail first_attempt "refused" 200 1 2 (activate 200 ready_job ∷ [])).0
          ≡ find_job x (activate 200 ready_job ∷ []))
fail_settles_example =
    fail_settles first_attempt "refused" 200 1 2 (activate 200 ready_job ∷ [])
      (activate 200 ready_job) 5000 (omega arith) (unfold find_job activate in refl)

-- One handler, which commits nothing else, and none for any other kind.
abbrev no_work : Handler
no_work job jobs = committed jobs

abbrev handler_for : String → Option Handler
handler_for kind = if str_eq kind "slack.post" then some no_work else none

abbrev env : Environment
env = record {
  handlers = handler_for;
  draw = λ job. 1;
  scale = 2;
  no_handler_message = λ kind. kind;
}

-- A job with a handler, and one without that has used up its attempts.
abbrev stray_job : Job
stray_job = record ready_job { id = "j-2"; kind = "mail.send"; attempts = 4 }

abbrev two_jobs : List Job
two_jobs = ready_job ∷ stray_job ∷ []

-- One is done, and the other dead.
tick_counts :
    (tick env nobody 200 (pos 5) two_jobs).1
    ≡ record { claimed = 2; completed = 1; retried = 0; dead = 1 }
unfolding tick claim includes filter_by run settle_failure
tick_counts = refl

run_settles_example :
    (j' : Job) × (find_job "j-1" (run env first_attempt 200 (ready_job ∷ [])).0 ≡ some j')
    × Settled env 200 first_attempt (run env first_attempt 200 (ready_job ∷ [])).1 j'
run_settles_example =
    run_settles env first_attempt 200 (ready_job ∷ []) ready_job (omega arith)
      (unfold find_job in refl)
      (λ h after e c.
        let same : h ≡ no_work = cc in
        let end : no_work first_attempt (ready_job ∷ []) ≡ committed after = (rw same at c) in
        let rest : ready_job ∷ [] ≡ after = cc in
        (ready_job, rw (← rest) (unfold find_job in refl)))
