-- ===== src/Scheduler/Queue.antt =====
-- src/scheduler/job-queue.service.ts: the job table and the statements that the queue runs on it.
-- The SQL of a method is written as what it does to the rows; each method is one transaction.
pub mod Claims
pub mod Lifecycle
pub mod Leases
use nivara_api_nestjs.Shared.{
  not, negsuc, ◌&&◌, filter_by, ltb, min, zero, [], false, includes, leb, str_eq, take, ◌+◌, Bool,
  if◌then◌else◌, none, pos, some, ◌++◌, ◌∷◌, List, Option, String, ℕ, ℤ,
}
use Prim.Native.Nat.{min, suc, ℕ}
use Prim.Native.String.{[], ◌∷◌, String}
use nivara_api_nestjs.Scheduler.Backoff.{next_run_after}

abbrev pub lease_ms : ℕ
lease_ms = 300000

abbrev pub claim_batch : ℕ
claim_batch = 20

abbrev pub max_claim_batch : ℕ
max_claim_batch = 1000

pub data JobStatus : Type 0 where
  ready active done dead : JobStatus

-- A row of the table `job`; `payload` is its JSON text.
pub record Job : Type 0 where
  pub id : String
  pub tenant_id : String
  pub kind : String
  pub payload : String
  pub run_after : ℕ
  pub attempts : ℕ
  pub max_attempts : ℕ
  pub status : JobStatus
  pub locked_at : Option ℕ
  pub last_error : Option String
  pub updated_at : ℕ

pub record EnqueueInput : Type 0 where
  pub kind : String
  pub payload : String
  pub run_after : Option ℕ
  pub max_attempts : Option ℕ

pub record ClaimedJob : Type 0 where
  pub id : String
  pub tenant_id : String
  pub kind : String
  pub payload : String
  pub attempts : ℕ
  pub max_attempts : ℕ

-- The column default where the input names no attempts, or 0, which is falsy.
attempts_or_default : Option ℕ → ℕ
attempts_or_default none = 5
attempts_or_default (some zero) = 5
attempts_or_default (some (suc n)) = suc n

abbrev or_now : Option ℕ → ℕ → ℕ
or_now none now = now
or_now (some t) now = t

-- The id is the database's, the tenant that of the transaction's context, and `now` its clock.
unfoldable pub enqueue : (id tenant_id : String) (now : ℕ) → EnqueueInput → List Job → List Job
unfolding attempts_or_default
enqueue id tenant_id now input jobs =
    jobs
    ++ record {
      id = id;
      tenant_id = tenant_id;
      kind = input.kind;
      payload = input.payload;
      run_after = or_now input.run_after now;
      attempts = 0;
      max_attempts = attempts_or_default input.max_attempts;
      status = ready;
      locked_at = none;
      last_error = none;
      updated_at = now;
    }
      ∷ []

-- `Math.min(Math.max(Math.trunc(limit) || CLAIM_BATCH, 1), MAX_CLAIM_BATCH)`, of a limit that is
-- truncated already; NaN goes the way of 0.
unfoldable pub batch_size : ℤ → ℕ
batch_size (pos zero) = claim_batch
batch_size (pos (suc n)) = min (suc n) max_claim_batch
batch_size (negsuc n) = 1

-- `"locked_at" < now - LEASE_MS`, which a null is not
lease_expired : ℕ → Option ℕ → Bool
lease_expired now none = false
lease_expired now (some at) = ltb (at + lease_ms) now

claimable_in : ℕ → ℕ → Option ℕ → JobStatus → Bool
unfolding lease_expired
claimable_in now run_after locked_at ready = leb run_after now
claimable_in now run_after locked_at active = lease_expired now locked_at
claimable_in now run_after locked_at _ = false

unfoldable pub is_claimable : ℕ → Job → Bool
unfolding claimable_in
is_claimable now j = claimable_in now j.run_after j.locked_at j.status

-- ORDER BY "run_after"
unfoldable pub insert_by_run_after : Job → List Job → List Job
insert_by_run_after j [] = j ∷ []
insert_by_run_after j (k ∷ ks) =
    let later = insert_by_run_after j ks in
    if leb j.run_after k.run_after then j ∷ k ∷ ks else k ∷ later

unfoldable pub order_by_run_after : List Job → List Job
unfolding insert_by_run_after
order_by_run_after [] = []
order_by_run_after (j ∷ js) = insert_by_run_after j (order_by_run_after js)

unfoldable pub ids : List Job → List String
ids [] = []
ids (j ∷ js) = j.id ∷ ids js

-- The CTE "due"; `locked` are the rows that another transaction holds, which SKIP LOCKED passes
-- over.
unfoldable pub due : (String → Bool) → ℕ → ℕ → List Job → List String
unfolding is_claimable order_by_run_after ids
due locked now batch jobs = ids (
    take batch (order_by_run_after (filter_by (λ j. is_claimable now j && not (locked j.id)) jobs)))

unfoldable pub activate : ℕ → Job → Job
activate now j = record j {
  status = active;
  locked_at = some now;
  attempts = j.attempts + 1;
  updated_at = now;
}

abbrev pub claimed : Job → ClaimedJob
claimed j = record {
  id = j.id;
  tenant_id = j.tenant_id;
  kind = j.kind;
  payload = j.payload;
  attempts = j.attempts;
  max_attempts = j.max_attempts;
}

-- UPDATE … FROM "due" … RETURNING, over the rows in the order of the table.
unfoldable pub activate_due : ℕ → List String → List Job → List Job
unfolding activate
activate_due now chosen [] = []
activate_due now chosen (j ∷ js) =
    (if includes chosen j.id then activate now j else j) ∷ activate_due now chosen js

unfoldable pub returning : ℕ → List String → List Job → List ClaimedJob
unfolding activate
returning now chosen [] = []
returning now chosen (j ∷ js) =
    let rest = returning now chosen js in
    if includes chosen j.id then claimed (activate now j) ∷ rest else rest

unfoldable pub claim : (String → Bool) → ℕ → ℤ → List Job → List Job × List ClaimedJob
unfolding due batch_size activate_due returning
claim locked now limit jobs =
    let chosen = due locked now (batch_size limit) jobs in
    (activate_due now chosen jobs, returning now chosen jobs)

-- UPDATE "job" SET … WHERE "id" = …
unfoldable pub update_job : String → (Job → Job) → List Job → List Job
update_job id f [] = []
update_job id f (j ∷ js) = (if str_eq j.id id then f j else j) ∷ update_job id f js

unfoldable pub completed_row : ℕ → Job → Job
completed_row now j = record j {
  status = done;
  locked_at = none;
  last_error = none;
  updated_at = now;
}

unfoldable pub dead_row : String → ℕ → Job → Job
dead_row message now j = record j {
  status = dead;
  locked_at = none;
  last_error = some message;
  updated_at = now;
}

unfoldable pub retried_row : String → ℕ → ℕ → Job → Job
retried_row message run_after now j = record j {
  status = ready;
  locked_at = none;
  last_error = some message;
  run_after = run_after;
  updated_at = now;
}

unfoldable pub complete : String → ℕ → List Job → List Job
unfolding update_job completed_row
complete id now jobs = update_job id (completed_row now) jobs

pub data FailOutcome : Type 0 where
  outcome_dead outcome_retry : FailOutcome

-- `message` is `messageOf(error)`; `draw / scale` is the draw of `Math.random` in `nextRunAfter`.
unfoldable pub fail : ClaimedJob → String → ℕ → ℕ → ℕ → List Job → List Job × FailOutcome
unfolding update_job dead_row retried_row next_run_after
fail job message now draw scale jobs =
    if leb job.max_attempts job.attempts
    then (update_job job.id (dead_row message now) jobs, outcome_dead)
    else (
      update_job job.id (retried_row message (next_run_after job.attempts now draw scale) now) jobs,
      outcome_retry,
    )
