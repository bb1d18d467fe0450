-- ===== src/Scheduler/Readiness.antt =====
-- src/scheduler/readiness.ts: what the probe reports of the database, Redis and the ticks. An age
-- is kept in milliseconds where the report divides it by 1000.
pub mod Verdict
use nivara_api_nestjs.Shared.{
  none, sub_ℕ, ◌*◌, ◌+◌, ltb, some, ℤ, ◌||◌, Option, [], false, not, true, ◌∷◌, Bool, List, String,
  if◌then◌else◌, ℕ,
}
use Prim.Native.String.{[], ◌∷◌, String}
use Prim.Native.Nat.{ℕ}

abbrev pub stale_tick_multiplier : ℕ
stale_tick_multiplier = 3

pub record TickReport : Type 0 where
  pub name : String
  pub last_tick_at : Option ℕ
  pub interval_ms : ℕ

pub record SchedulerReport : Type 0 where
  pub enabled : Bool
  pub ticks : List TickReport

pub record RedisReport : Type 0 where
  pub configured : Bool
  pub reachable : Bool

pub record ReadinessInput : Type 0 where
  pub now : ℕ
  pub database_reachable : Bool
  pub redis : RedisReport
  pub scheduler : SchedulerReport

pub data TickStatus : Type 0 where
  ticking stalled : TickStatus

pub record TickHealth : Type 0 where
  pub name : String
  pub status : TickStatus
  pub last_tick_at : Option ℕ
  pub age_ms : Option ℤ

pub data RedisStatus : Type 0 where
  redis_ok degraded dormant : RedisStatus

pub data SchedulerStatus : Type 0 where
  scheduler_ok scheduler_stalled disabled : SchedulerStatus

pub data Availability : Type 0 where
  available unavailable : Availability

pub record Readiness : Type 0 where
  pub status : Availability
  pub database : Availability
  pub redis : RedisStatus
  pub scheduler : SchedulerStatus
  pub ticks : List TickHealth

-- `ageMs > stale`, with the age now - last
health_since : TickReport → ℕ → Option ℕ → TickHealth
health_since tick now none = record {
  name = tick.name;
  status = stalled;
  last_tick_at = none;
  age_ms = none;
}
health_since tick now (some last) = record {
  name = tick.name;
  status = if ltb (last + tick.interval_ms * stale_tick_multiplier) now then stalled else ticking;
  last_tick_at = some last;
  age_ms = some (sub_ℕ now last);
}

unfoldable pub health_of : ℕ → TickReport → TickHealth
unfolding health_since
health_of now tick = health_since tick now tick.last_tick_at

abbrev pub is_stalled : TickStatus → Bool
is_stalled stalled = true
is_stalled ticking = false

unfoldable pub any_stalled : List TickHealth → Bool
any_stalled [] = false
any_stalled (t ∷ ts) = is_stalled t.status || any_stalled ts

unfoldable pub healths : ℕ → List TickReport → List TickHealth
unfolding health_of
healths now [] = []
healths now (t ∷ ts) = health_of now t ∷ healths now ts

abbrev no_ticks : List TickHealth → Bool
no_ticks [] = true
no_ticks (t ∷ ts) = false

unfoldable pub scheduler_status : Bool → List TickHealth → SchedulerStatus
unfolding any_stalled
scheduler_status enabled ticks =
    if not enabled
    then disabled
    else if no_ticks ticks || any_stalled ticks
    then scheduler_stalled
    else scheduler_ok

redis_status : RedisReport → RedisStatus
redis_status r = if not r.configured then dormant else if r.reachable then redis_ok else degraded

abbrev pub both_up : Availability → SchedulerStatus → Availability
both_up unavailable s = unavailable
both_up available scheduler_stalled = unavailable
both_up available s = available

unfoldable pub evaluate_readiness : ReadinessInput → Readiness
unfolding healths scheduler_status redis_status
evaluate_readiness i =
    let ticks = if i.scheduler.enabled then healths i.now i.scheduler.ticks else [] in
    let scheduler = scheduler_status i.scheduler.enabled ticks in
    let database = if i.database_reachable then available else unavailable in
    record {
      status = both_up database scheduler;
      database = database;
      redis = redis_status i.redis;
      scheduler = scheduler;
      ticks = ticks;
    }
