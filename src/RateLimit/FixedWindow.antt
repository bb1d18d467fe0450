-- ===== src/RateLimit/FixedWindow.antt =====
-- src/rate-limit/fixed-window.ts. The clock is whole milliseconds, and a window whole seconds.
use nivara_api_nestjs.Shared.{
  ◌%◌, inr, inl, none, Bool-cases, arith, leb, ◌-◌, if◌then◌else◌, ◌*◌, ◌+◌, ◌≡◌, ◌≤◌, max, some,
  ◌/◌, ◌<◌, Option, ℕ,
}
use Prim.Native.Nat.{max, ℕ}
use native.Mathlib.Nat.{div-add-mod, mod-lt, lt_of_mul-lt-mul_right, mul-lt-mul_of_pos_right}

pub record RateLimit : Type 0 where
  pub limit : ℕ
  pub window_seconds : ℕ

pub data RateLimitDecision : Type 0 where
  allowed : RateLimitDecision
  denied : (limit retry_after_seconds : ℕ) → RateLimitDecision

-- `Math.floor(nowMs / 1000 / windowSeconds) * windowSeconds`
unfoldable pub window_bucket : ℕ → ℕ → ℕ
window_bucket now_ms window_seconds = now_ms / (1000 * window_seconds) * window_seconds

-- `Math.max(1, Math.ceil(resetAtEpochSeconds - nowMs / 1000))`
unfoldable pub retry_after : ℕ → ℕ → ℕ
unfolding window_bucket
retry_after now_ms window_seconds =
    max 1 (((window_bucket now_ms window_seconds + window_seconds) * 1000 - now_ms + 999) / 1000)

-- A null count is a counter that could not be had.
unfoldable pub decide : Option ℕ → RateLimit → ℕ → RateLimitDecision
unfolding retry_after
decide none l now_ms = allowed
decide (some count) l now_ms =
    if leb count l.limit then allowed else denied l.limit (retry_after now_ms l.window_seconds)

-- The quotient by a window, and what is left.
window_split : (now k : ℕ) → 0 < k → (now / k * k ≤ now) × (now < now / k * k + k)
window_split now k h =
    let split = div-add-mod now k in
    let small : now % k < k = mod-lt now h in omega (arith, split, small)

later_quotient : (now later k : ℕ) → 0 < k → now / k * k + k ≤ later → now / k < later / k
later_quotient now later k h e =
    let (_, above) = window_split later k h in lt_of_mul-lt-mul_right k (omega (arith, above, e))

-- The wait until the reset, of which the last second may be shorter.
retry_bounds :
    (now w : ℕ)
    → 0 < w
    → (1 ≤ retry_after now w)
      × (retry_after now w ≤ w)
      × (now / (1000 * w) * (1000 * w) + 1000 * w ≤ now + retry_after now w * 1000)
unfolding retry_after window_bucket
retry_bounds now w h =
    let (low, high) = window_split now (1000 * w) (omega arith) in
    let b = now / (1000 * w) * w in
    let same : now / (1000 * w) * (1000 * w) ≡ b * 1000 = grind arith in
    omega (arith, low, high, same)

waited :
    (now w : ℕ) → 0 < w → window_bucket now w < window_bucket (now + retry_after now w * 1000) w
unfolding window_bucket
waited now w h =
    let (_, _, reset) = retry_bounds now w h in
    mul-lt-mul_of_pos_right
      (later_quotient now (now + retry_after now w * 1000) (1000 * w) (omega arith) reset) h

-- The instants that lie in a window.
pub in_window :
    (now w b : ℕ) → 0 < w → window_bucket now w ≡ b → (b * 1000 ≤ now) × (now < (b + w) * 1000)
unfolding window_bucket
in_window now w b h e =
    let (low, high) = window_split now (1000 * w) (omega arith) in
    let same : now / (1000 * w) * (1000 * w) ≡ now / (1000 * w) * w * 1000 = grind arith in
    omega (arith, low, high, same, e)

-- A denial by a window of at least a second, and the window that waiting leads to.
pub decide-denied :
    (count : Option ℕ) (l : RateLimit) (now_ms n r : ℕ)
    → 0 < l.window_seconds
    → decide count l now_ms ≡ denied n r
    → (n ≡ l.limit)
      × (1 ≤ r)
      × (r ≤ l.window_seconds)
      × (window_bucket now_ms l.window_seconds < window_bucket (now_ms + r * 1000) l.window_seconds)
unfolding decide
decide-denied none l now_ms n r h e = cc
decide-denied (some count) l now_ms n r h e = elim (Bool-cases (leb count l.limit)) [
  | inl within ↦ let e' = (rw within at e) in cc
  | inr beyond ↦
      let e' = (rw beyond at e) in
      let same : retry_after now_ms l.window_seconds ≡ r = cc in
      let limit : n ≡ l.limit = cc in
      let (least, most, _) = retry_bounds now_ms l.window_seconds h in
      (limit, rw (← same) least, rw (← same) most, rw (← same) (waited now_ms l.window_seconds h))
]
