-- ===== src/Scheduler/Drainer/Settling.antt =====
-- What a tick of src/scheduler/drainer.service.ts does with the jobs that it claimed.
use nivara_api_nestjs.Scheduler.Queue.{
  retried_row, dead_row, completed_row, complete, ready, dead, done, Job, ClaimedJob,
}
use nivara_api_nestjs.Scheduler.Backoff.{next_run_after_bounds, next_run_after}
use nivara_api_nestjs.Shared.{
  inr, inl, leb, refl, Bool-cases, Option, ◌≤◌, [], none, some, ◌∷◌, length, ◌<◌, arith, List, ◌+◌,
  ◌≡◌, String, ℕ,
}
use nivara_api_nestjs.Scheduler.Drainer.{
  threw, Option, Ran, after_handler, complete, settle_failure, with_handler, committed, Handler,
  gave_up, none, some, retried, ◌∷◌, completed, length, Job, arith, ClaimedJob, List, JobOutcome,
  String, run, ℕ, DrainSummary, Environment, count_outcome, run_all,
}
use nivara_api_nestjs.Scheduler.Queue.Lifecycle.{find_job_self}
use nivara_api_nestjs.Scheduler.Queue.Claims.{find_job}

abbrev pub total : DrainSummary → ℕ
total s = s.completed + s.retried + s.dead

total-count_outcome :
    (o : JobOutcome) (s : DrainSummary)
    → (total (count_outcome o s) ≡ total s + 1) × ((count_outcome o s).claimed ≡ s.claimed)
unfolding count_outcome
total-count_outcome completed s = ground arith
total-count_outcome retried s = ground arith
total-count_outcome gave_up s = ground arith

pub total-run_all :
    (env : Environment) (now : ℕ) (batch : List ClaimedJob) (jobs : List Job) (s : DrainSummary)
    → (total (run_all env now batch jobs s).1 ≡ total s + length batch)
      × ((run_all env now batch jobs s).1.claimed ≡ s.claimed)
unfolding run_all
total-run_all env now [] jobs s = omega arith
total-run_all env now (job ∷ rest) jobs s =
    let (jobs', outcome) = run env job now jobs in
    omega (
      arith,
      total-run_all env now rest jobs' (count_outcome outcome s),
      total-count_outcome outcome s,
    )

-- What the row of a job reads after the job was run.
pub record Settled (env : Environment) (now : ℕ) (job : ClaimedJob) (o : JobOutcome) (j : Job)
    : Type 0 where
  pub if_completed : o ≡ completed → (j.status ≡ done) × (j.last_error ≡ none)
  pub if_dead : o ≡ gave_up → (j.status ≡ dead) × (job.max_attempts ≤ job.attempts)
  pub if_retried :
      o ≡ retried
      → (j.status ≡ ready) × (job.attempts < job.max_attempts) × (now + 4000 ≤ j.run_after)

abbrev IsSettled : Environment → ℕ → ClaimedJob → List Job × JobOutcome → Type 0
IsSettled env now job r = (j' : Job) × (find_job job.id r.0 ≡ some j') × Settled env now job r.1 j'

settle_failure_settles :
    (env : Environment) (job : ClaimedJob) (message : String) (now : ℕ) (jobs : List Job) (j : Job)
    → env.draw job < env.scale
    → find_job job.id jobs ≡ some j
    → IsSettled env now job (settle_failure env job message now jobs)
unfolding settle_failure
settle_failure_settles env job message now jobs j h found =
    elim (Bool-cases (leb job.max_attempts job.attempts)) [
      | inl exhausted ↦ rw exhausted (
        dead_row message now j,
        find_job_self job.id (dead_row message now) jobs j (unfold dead_row in λ k. refl) found,
        record {
          if_completed = λ e. cc;
          if_dead = λ _. (unfold dead_row in refl, ground arith);
          if_retried = λ e. cc;
        },
      )
      | inr more ↦
          let at = next_run_after job.attempts now (env.draw job) env.scale in
          let bounds = next_run_after_bounds job.attempts now (env.draw job) env.scale h in
          rw more (
            retried_row message at now j,
            find_job_self job.id (retried_row message at now) jobs j
                (unfold retried_row in λ k. refl) found,
            record {
              if_completed = λ e. cc;
              if_dead = λ e. cc;
              if_retried =
                  λ _. (unfold retried_row in refl, ground arith, unfold retried_row in bounds.0);
            },
          )
    ]

complete_settles :
    (env : Environment) (job : ClaimedJob) (now : ℕ) (jobs : List Job) (j : Job)
    → find_job job.id jobs ≡ some j
    → IsSettled env now job (complete job.id now jobs, completed)
unfolding complete
complete_settles env job now jobs j found = (
  completed_row now j,
  find_job_self job.id (completed_row now) jobs j (unfold completed_row in λ k. refl) found,
  record {
    if_completed = λ _. (unfold completed_row in refl, unfold completed_row in refl);
    if_dead = λ e. cc;
    if_retried = λ e. cc;
  },
)

after_handler_settles :
    (env : Environment) (job : ClaimedJob) (now : ℕ) (jobs : List Job) (j : Job)
    → env.draw job < env.scale
    → find_job job.id jobs ≡ some j
    → (r : Ran)
    → ((after : List Job) → r ≡ committed after → (k : Job) × (find_job job.id after ≡ some k))
    → IsSettled env now job (after_handler env job now jobs r)
unfolding after_handler
after_handler_settles env job now jobs j h found (threw message) kept =
    settle_failure_settles env job message now jobs j h found
after_handler_settles env job now jobs j h found (committed after) kept =
    let (k, there) = kept after refl in complete_settles env job now after k there

with_handler_settles :
    (env : Environment) (job : ClaimedJob) (now : ℕ) (jobs : List Job) (j : Job)
    → env.draw job < env.scale
    → find_job job.id jobs ≡ some j
    → (o : Option Handler)
    → ((f : Handler) (after : List Job)
        → o ≡ some f
        → f job jobs ≡ committed after
        → (k : Job) × (find_job job.id after ≡ some k))
    → IsSettled env now job (with_handler env job now jobs o)
unfolding with_handler
with_handler_settles env job now jobs j h found none kept =
    settle_failure_settles env job (env.no_handler_message job.kind) now jobs j h found
with_handler_settles env job now jobs j h found (some f) kept =
    after_handler_settles env job now jobs j h found (f job jobs) (λ after e. kept f after refl e)

-- A job that is run to an outcome, with a draw below 1 and handlers that leave its row in the
-- table, has its row say so: done without an error, dead with its attempts used up, or ready
-- again and due at least four seconds later.
pub run_settles :
    (env : Environment) (job : ClaimedJob) (now : ℕ) (jobs : List Job) (j : Job)
    → env.draw job < env.scale
    → find_job job.id jobs ≡ some j
    → ((h : Handler) (after : List Job)
        → env.handlers job.kind ≡ some h
        → h job jobs ≡ committed after
        → (k : Job) × (find_job job.id after ≡ some k))
    → (j' : Job) × (find_job job.id (run env job now jobs).0 ≡ some j')
      × Settled env now job (run env job now jobs).1 j'
unfolding run
run_settles env job now jobs j h found kept =
    with_handler_settles env job now jobs j h found (env.handlers job.kind)
      (λ f after e. kept f after e)
