-- ===== src/Scheduler/Drainer.antt =====
-- src/scheduler/drainer.service.ts: one tick claims a batch and runs each job's handler. A handler
-- works in a transaction of its own, on domain tables and on the job table; what it commits to the
-- job table is its result, and a throw commits nothing.
pub mod Settling
pub mod Ticks
use nivara_api_nestjs.Shared.{
  arith, [], length, none, some, ℤ, ◌∷◌, ◌≡◌, Bool, Option, List, String, ℕ, ◌+◌,
}
use Prim.Native.String.{◌∷◌, String}
use nivara_api_nestjs.Scheduler.Queue.{
  outcome_retry, Job, fail, outcome_dead, ClaimedJob, FailOutcome, claim, complete,
}
use Prim.Native.Nat.{ℕ}

pub data Ran : Type 0 where
  committed : List Job → Ran
  threw : String → Ran

abbrev pub Handler : Type 0
Handler = ClaimedJob → List Job → Ran

pub data JobOutcome : Type 0 where
  completed retried gave_up : JobOutcome

pub record DrainSummary : Type 0 where
  pub claimed : ℕ
  pub completed : ℕ
  pub retried : ℕ
  pub dead : ℕ

-- The registry by job kind, the draw of `Math.random` for a job's retry, and the message of the
-- error for a kind without a handler.
pub record Environment : Type 0 where
  pub handlers : String → Option Handler
  pub draw : ClaimedJob → ℕ
  pub scale : ℕ
  pub no_handler_message : String → String

abbrev pub outcome_of : FailOutcome → JobOutcome
outcome_of outcome_dead = gave_up
outcome_of outcome_retry = retried

unfoldable pub settle_failure :
    Environment → ClaimedJob → String → ℕ → List Job → List Job × JobOutcome
unfolding fail
settle_failure env job message now jobs =
    let (jobs', outcome) = fail job message now (env.draw job) env.scale jobs in
    (jobs', outcome_of outcome)

unfoldable pub after_handler : Environment → ClaimedJob → ℕ → List Job → Ran → List Job × JobOutcome
after_handler env job now jobs (threw message) = settle_failure env job message now jobs
after_handler env job now jobs (committed jobs') = (complete job.id now jobs', completed)

unfoldable pub with_handler :
    Environment → ClaimedJob → ℕ → List Job → Option Handler → List Job × JobOutcome
unfolding after_handler
with_handler env job now jobs none =
    settle_failure env job (env.no_handler_message job.kind) now jobs
with_handler env job now jobs (some handler) = after_handler env job now jobs (handler job jobs)

unfoldable pub run : Environment → ClaimedJob → ℕ → List Job → List Job × JobOutcome
unfolding with_handler
run env job now jobs = with_handler env job now jobs (env.handlers job.kind)

unfoldable pub count_outcome : JobOutcome → DrainSummary → DrainSummary
count_outcome completed s = record s { completed = s.completed + 1 }
count_outcome retried s = record s { retried = s.retried + 1 }
count_outcome gave_up s = record s { dead = s.dead + 1 }

unfoldable pub run_all :
    Environment → ℕ → List ClaimedJob → List Job → DrainSummary → List Job × DrainSummary
unfolding count_outcome
run_all env now [] jobs s = (jobs, s)
run_all env now (job ∷ rest) jobs s =
    let (jobs', outcome) = run env job now jobs in
    run_all env now rest jobs' (count_outcome outcome s)

unfoldable pub tick : Environment → (String → Bool) → ℕ → ℤ → List Job → List Job × DrainSummary
unfolding run_all
tick env locked now limit jobs =
    let (jobs', batch) = claim locked now limit jobs in
    run_all env now batch jobs'
      (record { claimed = length batch; completed = 0; retried = 0; dead = 0 })
