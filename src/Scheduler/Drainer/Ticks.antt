-- ===== src/Scheduler/Drainer/Ticks.antt =====
-- What the summary of a tick of src/scheduler/drainer.service.ts says of the job table.

use nivara_api_nestjs.Scheduler.Queue.{done, dead, ready, active, Job, ClaimedJob, JobStatus}
use nivara_api_nestjs.Shared.{
  none, [], if◌then◌else◌, some, true, ◌+◌, String, false, ◌<◌, ◌∷◌, ◌≡◌, Bool, Option, ℕ, List,
  includes,
}
use nivara_api_nestjs.Scheduler.Drainer.{
  retried, completed, committed, Handler, DrainSummary, Environment,
}
use mathlib.Core.Option.{none}
use nivara_api_nestjs.Scheduler.Queue.Claims.{claimed_ids, find_job}

abbrev same_status : JobStatus → JobStatus → Bool
same_status ready ready = true
same_status active active = true
same_status done done = true
same_status dead dead = true
same_status _ _ = false

abbrev row_is : JobStatus → Option Job → Bool
row_is status none = false
row_is status (some j) = same_status j.status status

-- How many of the claimed jobs have a row of the status.
unfoldable pub count_status : JobStatus → List Job → List ClaimedJob → ℕ
unfolding find_job
count_status status jobs [] = 0
count_status status jobs (c ∷ cs) =
    (if row_is status (find_job c.id jobs) then 1 else 0) + count_status status jobs cs

-- Handlers that leave the rows of jobs alone.
abbrev pub Quiet : Environment → Type 0
Quiet env =
    (h : Handler) (job : ClaimedJob) (jobs after : List Job)
    → env.handlers job.kind ≡ some h
    → h job jobs ≡ committed after
    → (x : String) (j : Job) → find_job x jobs ≡ some j
    → find_job x after ≡ some j

abbrev pub Drawn : Environment → Type 0
Drawn env = (job : ClaimedJob) → env.draw job < env.scale

-- The claimed jobs are distinct and have rows.
abbrev Known : List ClaimedJob → List Job → Type 0
Known [] jobs = Unit
Known (c ∷ cs) jobs =
    (includes (claimed_ids cs) c.id ≡ false)
    × ((j : Job) × (find_job c.id jobs ≡ some j))
    × Known cs jobs

-- What a summary says beyond another.
pub record Counts (s s' : DrainSummary) (jobs : List Job) (batch : List ClaimedJob) : Type 0 where
  pub same_claimed : s'.claimed ≡ s.claimed
  pub counts_completed : s'.completed ≡ s.completed + count_status done jobs batch
  pub counts_retried : s'.retried ≡ s.retried + count_status ready jobs batch
  pub counts_dead : s'.dead ≡ s.dead + count_status dead jobs batch
