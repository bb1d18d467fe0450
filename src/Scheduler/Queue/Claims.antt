-- ===== src/Scheduler/Queue/Claims.antt =====
-- Which rows `claim` of src/scheduler/job-queue.service.ts takes, and that no two claims within a
-- lease take the same one.
use nivara_api_nestjs.Scheduler.Queue.{
  lease_ms, ClaimedJob, returning, batch_size, activate, not, is_claimable, ℤ, activate_due, claim,
  due, suc, false, none, some, str_eq, take, Bool, Option, insert_by_run_after, order_by_run_after,
  ℕ, Job, includes, ids,
}
use nivara_api_nestjs.Shared.{
  ◌+◌, ◌≤◌, ◌∙◌, sym, not, ◌&&◌, ◌⊎◌, ℤ, inr, inl, refl, zero, Bool-cases, [], eq_iff,
  if◌then◌else◌, ◌||◌, arith, false, none, some, str_eq, take, true, Bool, Option, ℕ, ◌∷◌, ◌≡◌,
  includes, List, String, filter_by,
}
use Prim.Native.String.{◌∷◌, String}
use mathlib.Core.Option

unfoldable pub find_job : String → List Job → Option Job
find_job x [] = none
find_job x (j ∷ js) = if str_eq j.id x then some j else find_job x js

-- `job.id` is the primary key.
abbrev pub Distinct : List Job → Type 0
Distinct [] = Unit
Distinct (j ∷ js) = (includes (ids js) j.id ≡ false) × Distinct js

includes_of_find_job :
    (x : String) (js : List Job) (j : Job) → find_job x js ≡ some j → includes (ids js) x ≡ true
unfolding find_job ids includes
includes_of_find_job x [] j e = cc
includes_of_find_job x (k ∷ ks) j e = ground (arith, includes_of_find_job x ks j)

pub id_of_find_job : (x : String) (js : List Job) (j : Job) → find_job x js ≡ some j → j.id ≡ x
unfolding find_job
id_of_find_job x [] j e = cc
id_of_find_job x (k ∷ ks) j e = ground (arith, id_of_find_job x ks j, eq_iff k.id x)

includes-ids-take :
    (n : ℕ) (js : List Job) (x : String)
    → includes (ids (take n js)) x ≡ true
    → includes (ids js) x ≡ true
unfolding ids includes
includes-ids-take zero js x h = ground arith
includes-ids-take (suc n) [] x h = h
includes-ids-take (suc n) (j ∷ js) x h = ground (arith, includes-ids-take n js x)

includes-insert :
    (j : Job) (js : List Job) (x : String)
    → includes (ids (insert_by_run_after j js)) x ≡ (str_eq j.id x || includes (ids js) x)
unfolding ids includes insert_by_run_after
includes-insert j [] x = refl
includes-insert j (k ∷ ks) x = ground (arith, includes-insert j ks x)

includes-order :
    (js : List Job) (x : String) → includes (ids (order_by_run_after js)) x ≡ includes (ids js) x
unfolding ids includes order_by_run_after
includes-order [] x = refl
includes-order (j ∷ js) x =
    ground (arith, includes-insert j (order_by_run_after js) x, includes-order js x)

filtered_row :
    (p : Job → Bool) (js : List Job) (x : String)
    → Distinct js
    → includes (ids (filter_by p js)) x ≡ true
    → (j : Job) × (find_job x js ≡ some j) × (p j ≡ true)
unfolding find_job filter_by ids includes
filtered_row p [] x d h = absurd (ground arith)
filtered_row p (k ∷ ks) x (d, ds) h = elim (Bool-cases (str_eq k.id x)) [
  | inl here ↦ elim (Bool-cases (p k)) [
    | inl holds ↦ (k, ground arith, holds)
    | inr fails ↦
        let (j, found, _) = filtered_row p ks x ds (ground arith) in
        absurd (ground (arith, includes_of_find_job x ks j found, eq_iff k.id x))
  ]
  | inr later ↦
      let (j, found, holds) = filtered_row p ks x ds (ground arith) in (j, ground arith, holds)
]

-- The rows that a claim chooses are claimable and not held by another transaction.
due_row :
    (locked : String → Bool) (now batch : ℕ) (jobs : List Job) (x : String)
    → Distinct jobs
    → includes (due locked now batch jobs) x ≡ true
    → (j : Job) × (find_job x jobs ≡ some j) × (is_claimable now j ≡ true) × (locked x ≡ false)
unfolding due
due_row locked now batch jobs x d h =
    let free = λ (j : Job). is_claimable now j && not (locked j.id) in
    let sorted = order_by_run_after (filter_by free jobs) in
    let there : includes (ids (filter_by free jobs)) x ≡ true =
      sym (includes-order (filter_by free jobs) x) ∙ includes-ids-take batch sorted x h in
    let (j, found, holds) = filtered_row free jobs x d there in
    (j, found, ground arith, rw (← id_of_find_job x jobs j found) (ground arith))

find_job-activate_due :
    (now : ℕ) (chosen : List String) (x : String) (js : List Job)
    → find_job x (activate_due now chosen js)
      ≡ Option.map (λ j. if includes chosen j.id then activate now j else j) (find_job x js)
unfolding find_job activate_due
find_job-activate_due now chosen x [] = refl
find_job-activate_due now chosen x (j ∷ js) = ground (arith, find_job-activate_due now chosen x js)

-- Of a table with distinct ids, a claim leaves a row as it was or activates it, and the latter
-- only if the row was claimable and not held by another transaction.
pub claim_sound :
    (locked : String → Bool) (now : ℕ) (limit : ℤ) (jobs : List Job) (x : String) (j : Job)
    → Distinct jobs
    → find_job x jobs ≡ some j
    → (find_job x (claim locked now limit jobs).0 ≡ some j)
      ⊎ ((find_job x (claim locked now limit jobs).0 ≡ some (activate now j))
          × (is_claimable now j ≡ true)
          × (locked x ≡ false))
unfolding claim
claim_sound locked now limit jobs x j d e =
    let chosen = due locked now (batch_size limit) jobs in
    let same = id_of_find_job x jobs j e in
    elim (Bool-cases (includes chosen x)) [
      | inl taken ↦
          let (k, found, free, unlocked) = due_row locked now (batch_size limit) jobs x d taken in
          inr (ground (arith, find_job-activate_due now chosen x jobs), ground arith, unlocked)
      | inr left ↦ inl (ground (arith, find_job-activate_due now chosen x jobs))
    ]

abbrev pub claimed_ids : List ClaimedJob → List String
claimed_ids [] = []
claimed_ids (j ∷ js) = j.id ∷ claimed_ids js

pub includes-returning :
    (now : ℕ) (chosen : List String) (js : List Job) (x : String)
    → includes (claimed_ids (returning now chosen js)) x
      ≡ (includes chosen x && includes (ids js) x)
unfolding includes returning ids
includes-returning now chosen [] x = ground arith
includes-returning now chosen (j ∷ js) x = elim (Bool-cases (str_eq j.id x)) [
  | inl here ↦
      rw ((eq_iff j.id x).0 here) (ground (arith, includes-returning now chosen js x, eq_iff x x))
  | inr other ↦ ground (arith, includes-returning now chosen js x)
]

ids-activate_due :
    (now : ℕ) (chosen : List String) (js : List Job) → ids (activate_due now chosen js) ≡ ids js
unfolding ids activate_due
ids-activate_due now chosen [] = refl
ids-activate_due now chosen (j ∷ js) = ground (arith, ids-activate_due now chosen js)

pub Distinct-activate_due :
    (now : ℕ) (chosen : List String) (js : List Job)
    → Distinct js
    → Distinct (activate_due now chosen js)
unfolding activate_due
Distinct-activate_due now chosen [] d = tt
Distinct-activate_due now chosen (j ∷ js) (d, ds) =
    (rw (ids-activate_due now chosen js) (ground arith), Distinct-activate_due now chosen js ds)

pub not_claimable-activate :
    (now later : ℕ) (j : Job) → later ≤ now + lease_ms → is_claimable later (activate now j) ≡ false
unfolding is_claimable activate
not_claimable-activate now later j h = ground arith

-- A job that no claim takes until the lease from an instant is over.
pub record Leased (now : ℕ) (x : String) (jobs : List Job) : Type 0 where
  pub row : Job
  pub found : find_job x jobs ≡ some row
  pub held : (later : ℕ) → later ≤ now + lease_ms → is_claimable later row ≡ false

pub claimed-Leased :
    (locked : String → Bool) (now : ℕ) (limit : ℤ) (jobs : List Job) (x : String)
    → Distinct jobs
    → includes (claimed_ids (claim locked now limit jobs).1) x ≡ true
    → Leased now x (claim locked now limit jobs).0
unfolding claim
claimed-Leased locked now limit jobs x d h =
    let chosen = due locked now (batch_size limit) jobs in
    let mine : includes chosen x ≡ true = ground (arith, includes-returning now chosen jobs x) in
    let (j, found, _, _) = due_row locked now (batch_size limit) jobs x d mine in
    let same = id_of_find_job x jobs j found in
    record {
      row = activate now j;
      found = ground (arith, find_job-activate_due now chosen x jobs);
      held = λ later. not_claimable-activate now later j;
    }

pub Leased-unclaimed :
    (locked : String → Bool) (now later : ℕ) (limit : ℤ) (jobs : List Job) (x : String)
    → Distinct jobs
    → Leased now x jobs
    → later ≤ now + lease_ms
    → includes (claimed_ids (claim locked later limit jobs).1) x ≡ false
unfolding claim
Leased-unclaimed locked now later limit jobs x d l h =
    let chosen = due locked later (batch_size limit) jobs in
    elim (Bool-cases (includes chosen x)) [
      | inl again ↦
          let (k, found, free, _) = due_row locked later (batch_size limit) jobs x d again in
          let same : some k ≡ some l.row = sym found ∙ l.found in
          let row : k ≡ l.row = cc in
          let held = l.held later h in absurd (let free' = (rw row at free) in ground arith)
      | inr left ↦ ground (arith, includes-returning later chosen jobs x)
    ]
