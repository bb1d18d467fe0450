-- ===== src/Scheduler/Queue/Leases.antt =====
-- What the lease of src/scheduler/job-queue.service.ts keeps others from, whatever happens to the
-- job table meanwhile.
use nivara_api_nestjs.Scheduler.Queue.Lifecycle.{
  find_other, fails, completes, find_job-update_job, claims, Step-TableValid, enqueues, Step,
  TableValid,
}
use nivara_api_nestjs.Shared.{
  ◌∙◌, leb, refl, ◌+◌, [], eq_iff, inl, ◌≤◌, arith, inr, true, ◌∷◌, Bool-cases, false, ◌++◌,
  includes, some, str_eq, ℤ, ◌≡◌, Bool, List, String, ℕ,
}
use nivara_api_nestjs.Scheduler.Queue.Claims.{
  Leased-unclaimed, claimed-Leased, not_claimable-activate, claim_sound, claimed_ids, Distinct,
  Leased, find_job,
}
use nivara_api_nestjs.Scheduler.Queue.{
  retried_row, next_run_after, dead_row, lease_ms, activate, is_claimable, leb, completed_row,
  enqueue, claim, false, ClaimedJob, includes, some, str_eq, complete, fail, ℤ, Job,
}
use nivara_api_nestjs.Scheduler.Backoff.{next_run_after}
use Prim.Native.String.{[], String}
use Prim.Native.Nat.{ℕ}

-- A statement other than a failure of the job.
abbrev pub Spares : (x : String) {a b : List Job} → Step a b → Type 0
Spares x (enqueues id tenant_id now input fresh) = Unit
Spares x (claims locked now limit) = Unit
Spares x (completes id now) = Unit
Spares x (fails job message now draw scale) = str_eq job.id x ≡ false

-- Any sequence of them, the clocks of which may differ.
pub data Sparing (x : String) (a : List Job) : List Job → Type 0 where
  at_once : Sparing x a a
  further : {b c : List Job} → Sparing x a b → (s : Step b c) → Spares x s → Sparing x a c

find_job-snoc :
    (x : String) (js : List Job) (j k : Job)
    → find_job x js ≡ some j
    → find_job x (js ++ k ∷ []) ≡ some j
unfolding find_job
find_job-snoc x [] j k e = cc
find_job-snoc x (i ∷ is) j k e = ground (arith, find_job-snoc x is j k)

pub find_job-fail :
    (job : ClaimedJob) (message : String) (now draw scale : ℕ) (jobs : List Job) (x : String)
    → str_eq x job.id ≡ false
    → find_job x (fail job message now draw scale jobs).0 ≡ find_job x jobs
unfolding fail
find_job-fail job message now draw scale jobs x other =
    elim (Bool-cases (leb job.max_attempts job.attempts)) [
      | inl exhausted ↦
          rw exhausted
            (find_other job.id x (dead_row message now) jobs (unfold dead_row in λ j. refl) other)
      | inr more ↦
          let at = next_run_after job.attempts now draw scale in
          rw more (
            find_other job.id x (retried_row message at now) jobs (unfold retried_row in λ j. refl)
              other)
    ]

fail-Leased :
    (now at draw scale : ℕ) (x message : String) (job : ClaimedJob) (jobs : List Job)
    → str_eq job.id x ≡ false
    → Leased now x jobs
    → Leased now x (fail job message at draw scale jobs).0
fail-Leased now at draw scale x message job jobs other l =
    let other' : str_eq x job.id ≡ false = ground (arith, eq_iff x job.id, eq_iff job.id x) in
    record {
      row = l.row;
      found = find_job-fail job message at draw scale jobs x other' ∙ l.found;
      held = l.held;
    }

complete-Leased :
    (now at : ℕ) (x id : String) (jobs : List Job)
    → Leased now x jobs
    → Leased now x (complete id at jobs)
unfolding complete
complete-Leased now at x id jobs l = elim (Bool-cases (str_eq x id)) [
  | inr other ↦ record {
    row = l.row;
    found =
        find_other id x (completed_row at) jobs (unfold completed_row in λ j. refl) other ∙ l.found;
    held = l.held;
  }
  | inl mine ↦ record {
    row = completed_row at l.row;
    found =
        rw
          (
            find_job-update_job id x (completed_row at) jobs (unfold completed_row in λ j. refl),
            l.found,
            mine,
          )
          refl;
    held = λ later h. unfold is_claimable completed_row in refl;
  }
]

claim-Leased :
    (locked : String → Bool) (now at : ℕ) (limit : ℤ) (x : String) (jobs : List Job)
    → Distinct jobs
    → Leased now x jobs
    → Leased now x (claim locked at limit jobs).0
claim-Leased locked now at limit x jobs d l =
    elim (claim_sound locked at limit jobs x l.row d l.found) [
      | inl same ↦ record { row = l.row; found = same; held = l.held }
      | inr (taken, free, _) ↦ record {
        row = activate at l.row;
        found = taken;
        held = λ later h. elim (Bool-cases (leb at (now + lease_ms))) [
          | inl within ↦ absurd (let held = l.held at (ground arith) in ground arith)
          | inr beyond ↦ not_claimable-activate at later l.row (ground arith)
        ];
      }
    ]

Step-Leased :
    (now : ℕ) (x : String) {a b : List Job} (s : Step a b)
    → Spares x s
    → Distinct a
    → Leased now x a
    → Leased now x b
Step-Leased now x {a} (enqueues id tenant_id at input fresh) sp d l =
    unfold enqueue in
    record { row = l.row; found = find_job-snoc x a l.row _ l.found; held = l.held }
Step-Leased now x {a} (claims locked at limit) sp d l = claim-Leased locked now at limit x a d l
Step-Leased now x {a} (completes id at) sp d l = complete-Leased now at x id a l
Step-Leased now x {a} (fails job message at draw scale) sp d l =
    fail-Leased now at draw scale x message job a sp l

Sparing-Leased :
    (now : ℕ) (x : String) {a b : List Job}
    → Sparing x a b
    → TableValid a
    → Leased now x a
    → TableValid b × Leased now x b
Sparing-Leased now x at_once v l = (v, l)
Sparing-Leased now x (further before s spares) v l =
    let (v', l') = Sparing-Leased now x before v l in
    (Step-TableValid s v', Step-Leased now x s spares v'.distinct l')

-- A job that a claim on a valid table handed out is not handed out by another claim within a
-- lease of the first, whatever its batch size and whichever rows others hold, if between the two
-- come only enqueues, claims and completions of any jobs, and failures of other jobs, in any
-- number and order and at any instants.
pub claims_disjoint :
    (locked locked' : String → Bool) (now later : ℕ) (limit limit' : ℤ) (jobs jobs' : List Job)
    (x : String)
    → TableValid jobs
    → includes (claimed_ids (claim locked now limit jobs).1) x ≡ true
    → Sparing x (claim locked now limit jobs).0 jobs'
    → later ≤ now + lease_ms
    → includes (claimed_ids (claim locked' later limit' jobs').1) x ≡ false
claims_disjoint locked locked' now later limit limit' jobs jobs' x v taken between h =
    let leased = claimed-Leased locked now limit jobs x v.distinct taken in
    let (v', leased') =
      Sparing-Leased now x between (Step-TableValid (claims locked now limit) v) leased in
    Leased-unclaimed locked' now later limit' jobs' x v'.distinct leased' h
