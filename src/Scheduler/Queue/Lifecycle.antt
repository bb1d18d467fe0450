-- ===== src/Scheduler/Queue/Lifecycle.antt =====
-- What holds of the job table of src/scheduler/job-queue.service.ts after any sequence of the
-- queue's statements, and how a failure settles a job.
use nivara_api_nestjs.Scheduler.Backoff.{next_run_after_bounds, next_run_after}
use nivara_api_nestjs.Scheduler.Queue.Claims.{Distinct-activate_due, find_job, Distinct}
use nivara_api_nestjs.Shared.{
  Option-cases, if◌then◌else◌, true, ◌+◌, ◌≤◌, some, eq_iff, leb, ◌<◌, ◌||◌, inr, ℤ, Bool, inl,
  str_eq, Bool-cases, arith, refl, ◌++◌, false, none, ◌∷◌, All, [], includes, ℕ, ◌≡◌, ◌≢◌, List,
  String,
}
use nivara_api_nestjs.Scheduler.Queue.{
  ready, is_claimable, dead, batch_size, next_run_after, some, due, leb, fail, ClaimedJob, complete,
  claim, ℤ, Bool, str_eq, enqueue, false, none, EnqueueInput, active, ids, update_job, includes, ℕ,
  Job, activate_due, activate, completed_row, dead_row, retried_row,
}
use Prim.Native.String.{◌∷◌, [], String}
use mathlib.Core.Option

-- A row is locked exactly while it is active.
pub record RowValid (j : Job) : Type 0 where
  pub held : j.status ≡ active → j.locked_at ≢ none
  pub free : j.status ≢ active → j.locked_at ≡ none

pub record TableValid (jobs : List Job) : Type 0 where
  pub distinct : Distinct jobs
  pub rows : All RowValid jobs

pub data Step (jobs : List Job) : List Job → Type 0 where
  enqueues :
      (id tenant_id : String) (now : ℕ) (input : EnqueueInput)
      → includes (ids jobs) id ≡ false
      → Step jobs (enqueue id tenant_id now input jobs)
  claims :
      (locked : String → Bool) (now : ℕ) (limit : ℤ) → Step jobs (claim locked now limit jobs).0
  completes : (id : String) (now : ℕ) → Step jobs (complete id now jobs)
  fails :
      (job : ClaimedJob) (message : String) (now draw scale : ℕ)
      → Step jobs (fail job message now draw scale jobs).0

pub data Reach : List Job → Type 0 where
  start : Reach []
  next : {a b : List Job} → Reach a → Step a b → Reach b

-- An update that keeps ids and leaves valid rows.
module _ (id : String) (f : Job → Job) (same : (j : Job) → (f j).id ≡ j.id)
    (good : (j : Job) → RowValid (f j)) where
  ids-update_job : (js : List Job) → ids (update_job id f js) ≡ ids js
  unfolding ids update_job
  ids-update_job [] = refl
  ids-update_job (j ∷ js) = ground (arith, ids-update_job js, same j)

  update_job-TableValid :
      (js : List Job) → Distinct js → All RowValid js → TableValid (update_job id f js)
  unfolding update_job
  update_job-TableValid [] d v = record { distinct = tt; rows = tt }
  update_job-TableValid (j ∷ js) (d, ds) (v, vs) =
      let rest = update_job-TableValid js ds vs in
      elim (Bool-cases (str_eq j.id id)) [
        | inl here ↦ rw here (record {
          distinct = (rw (ids-update_job js, same j) d, rest.distinct);
          rows = (good j, rest.rows);
        })
        | inr other ↦
            rw other (record {
              distinct = (rw (ids-update_job js) d, rest.distinct);
              rows = (v, rest.rows);
            })
      ]

settled-RowValid : (j : Job) → j.status ≢ active → j.locked_at ≡ none → RowValid j
settled-RowValid j h k = record { held = λ e. absurd (h e); free = λ _. k }

completed-RowValid : (now : ℕ) (j : Job) → RowValid (completed_row now j)
unfolding completed_row
completed-RowValid now j = settled-RowValid _ (λ e. cc) refl

dead-RowValid : (message : String) (now : ℕ) (j : Job) → RowValid (dead_row message now j)
unfolding dead_row
dead-RowValid message now j = settled-RowValid _ (λ e. cc) refl

retried-RowValid :
    (message : String) (run_after now : ℕ) (j : Job)
    → RowValid (retried_row message run_after now j)
unfolding retried_row
retried-RowValid message run_after now j = settled-RowValid _ (λ e. cc) refl

activate-RowValid : (now : ℕ) (j : Job) → RowValid (activate now j)
unfolding activate
activate-RowValid now j = record { held = λ e z. cc; free = λ h. absurd (h refl) }

activate_due-rows :
    (now : ℕ) (chosen : List String) (js : List Job)
    → All RowValid js
    → All RowValid (activate_due now chosen js)
unfolding activate_due
activate_due-rows now chosen [] v = tt
activate_due-rows now chosen (j ∷ js) (v, vs) = elim (Bool-cases (includes chosen j.id)) [
  | inl taken ↦ rw taken (activate-RowValid now j, activate_due-rows now chosen js vs)
  | inr left ↦ rw left (v, activate_due-rows now chosen js vs)
]

includes-snoc :
    (js : List Job) (j : Job) (x : String)
    → includes (ids (js ++ j ∷ [])) x ≡ (includes (ids js) x || str_eq j.id x)
unfolding includes ids
includes-snoc [] j x = ground arith
includes-snoc (k ∷ ks) j x = ground (arith, includes-snoc ks j x)

snoc-TableValid :
    (js : List Job) (j : Job)
    → includes (ids js) j.id ≡ false
    → RowValid j
    → Distinct js
    → All RowValid js
    → TableValid (js ++ j ∷ [])
unfolding includes ids
snoc-TableValid [] j fresh v d r = record { distinct = (refl, tt); rows = (v, tt) }
snoc-TableValid (k ∷ ks) j fresh v (d, ds) (r, rs) =
    let rest = snoc-TableValid ks j (ground arith) v ds rs in
    record {
      distinct = (
        ground (arith, includes-snoc ks j k.id, eq_iff j.id k.id, eq_iff k.id j.id),
        rest.distinct,
      );
      rows = (r, rest.rows);
    }

fail-TableValid :
    (job : ClaimedJob) (message : String) (now draw scale : ℕ) (jobs : List Job)
    → TableValid jobs
    → TableValid (fail job message now draw scale jobs).0
unfolding fail
fail-TableValid job message now draw scale jobs t =
    elim (Bool-cases (leb job.max_attempts job.attempts)) [
      | inl exhausted ↦ rw exhausted (
          update_job-TableValid job.id (dead_row message now) (unfold dead_row in λ j. refl)
            (dead-RowValid message now) jobs t.distinct t.rows)
      | inr more ↦
          let at = next_run_after job.attempts now draw scale in
          rw more (
            update_job-TableValid job.id (retried_row message at now)
              (unfold retried_row in λ j. refl) (retried-RowValid message at now) jobs t.distinct
              t.rows)
    ]

pub Step-TableValid : {a b : List Job} → Step a b → TableValid a → TableValid b
Step-TableValid {a} (enqueues id tenant_id now input fresh) t =
    unfold enqueue in
    snoc-TableValid a _ fresh (settled-RowValid _ (λ e. cc) refl) t.distinct t.rows
Step-TableValid {a} (claims locked now limit) t =
    let chosen = due locked now (batch_size limit) a in
    unfold claim in
    record {
      distinct = Distinct-activate_due now chosen a t.distinct;
      rows = activate_due-rows now chosen a t.rows;
    }
Step-TableValid {a} (completes id now) t =
    unfold complete in
    update_job-TableValid id (completed_row now) (unfold completed_row in λ j. refl)
      (completed-RowValid now) a t.distinct t.rows
Step-TableValid {a} (fails job message now draw scale) t =
    fail-TableValid job message now draw scale a t

-- After any sequence of enqueues with fresh ids, claims, completions and failures, late ones
-- included, job ids are distinct and a row is locked exactly while it is active.
pub Reach-TableValid : {jobs : List Job} → Reach jobs → TableValid jobs
Reach-TableValid start = record { distinct = tt; rows = tt }
Reach-TableValid (next r s) = Step-TableValid s (Reach-TableValid r)

pub find_job-update_job :
    (id x : String) (f : Job → Job) (js : List Job)
    → ((j : Job) → (f j).id ≡ j.id)
    → find_job x (update_job id f js)
      ≡ Option.map (λ j. if str_eq x id then f j else j) (find_job x js)
unfolding find_job update_job
find_job-update_job id x f [] same = refl
find_job-update_job id x f (j ∷ js) same =
    ground (
      arith,
      find_job-update_job id x f js same,
      same j,
      eq_iff j.id x,
      eq_iff x id,
      eq_iff j.id id,
    )

pub find_job_self :
    (id : String) (f : Job → Job) (js : List Job) (j : Job)
    → ((j : Job) → (f j).id ≡ j.id)
    → find_job id js ≡ some j
    → find_job id (update_job id f js) ≡ some (f j)
find_job_self id f js j same found =
    rw (find_job-update_job id id f js same, found) (ground (arith, eq_iff id id))

pub find_other :
    (id x : String) (f : Job → Job) (js : List Job)
    → ((j : Job) → (f j).id ≡ j.id)
    → str_eq x id ≡ false
    → find_job x (update_job id f js) ≡ find_job x js
find_other id x f js same other = elim (Option-cases (find_job x js)) [
  | inl absent ↦ rw (find_job-update_job id x f js same, absent) refl
  | inr (j, present) ↦ rw (find_job-update_job id x f js same, present, other) refl
]

-- With a draw below 1, a failure of a job whose row is in the table makes the row dead, and
-- claimable at no time, exactly if the claimed attempts are used up; otherwise ready again,
-- claimable not within four seconds but again after eighteen minutes. The error is recorded and
-- no other row changes.
pub fail_settles :
    (job : ClaimedJob) (message : String) (now draw scale : ℕ) (jobs : List Job) (j : Job)
    (time : ℕ)
    → draw < scale
    → find_job job.id jobs ≡ some j
    → (j' : Job) × (find_job job.id (fail job message now draw scale jobs).0 ≡ some j')
      × (j'.last_error ≡ some message)
      × (job.max_attempts ≤ job.attempts → (j'.status ≡ dead) × (is_claimable time j' ≡ false))
      × (job.attempts < job.max_attempts
          → (j'.status ≡ ready)
            × (time < now + 4000 → is_claimable time j' ≡ false)
            × (now + 1080000 ≤ time → is_claimable time j' ≡ true))
      × ((x : String)
          → str_eq x job.id ≡ false
          → find_job x (fail job message now draw scale jobs).0 ≡ find_job x jobs)
unfolding fail
fail_settles job message now draw scale jobs j time h found =
    elim (Bool-cases (leb job.max_attempts job.attempts)) [
      | inl exhausted ↦ rw exhausted (
        dead_row message now j,
        ground (
          arith,
          find_job-update_job job.id job.id (dead_row message now) jobs
              (unfold dead_row in λ k. refl),
          eq_iff job.id job.id,
        ),
        refl,
        λ _. (refl, unfold is_claimable in refl),
        λ more. absurd (ground arith),
        λ x other.
            find_other job.id x (dead_row message now) jobs (unfold dead_row in λ k. refl) other,
      )
      | inr more ↦
          let at = next_run_after job.attempts now draw scale in
          let bounds = next_run_after_bounds job.attempts now draw scale h in
          rw more (
            retried_row message at now j,
            ground (
              arith,
              find_job-update_job job.id job.id (retried_row message at now) jobs
                  (unfold retried_row in λ k. refl),
              eq_iff job.id job.id,
            ),
            refl,
            λ exhausted. absurd (ground arith),
            λ _. (
              refl,
              λ early. unfold is_claimable in ground arith,
              λ late. unfold is_claimable in ground arith,
            ),
            λ x other.
                find_other job.id x (retried_row message at now) jobs
                  (unfold retried_row in λ k. refl) other,
          )
    ]
