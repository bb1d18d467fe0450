-- ===== src/Scheduler/Backoff.antt =====
-- src/scheduler/backoff.ts. A draw of `Math.random` is a fraction `draw / scale` below 1, so a
-- delay, which is a fraction of a millisecond, is the pair of a numerator and 5 * scale.
use nivara_api_nestjs.Shared.{
  ◌%◌, refl, suc, arith, ◌≡◌, ◌<◌, ◌^◌, ◌≤◌, ◌-◌, max, ◌/◌, min, ◌*◌, ◌+◌, ℕ,
}
use Prim.Native.Nat.{suc, max, min, ℕ}
use native.Mathlib.Nat.{
  lt_of_mul-lt-mul_right, div-add-mod, mod-lt, mul-le-mul_left, le_of_mul-le-mul_right, one-le-pow,
  pow-le-pow_right, pow-suc,
}
use native.Mathlib.Decide.{dec_lt}

abbrev pub base_backoff_ms : ℕ
base_backoff_ms = 5000

abbrev pub max_backoff_ms : ℕ
max_backoff_ms = 900000

-- `Math.ceil(Math.log2(MAX_BACKOFF_MS / BASE_BACKOFF_MS)) + 1`: 2 ^ 7 < 180 ≤ 2 ^ 8
abbrev pub saturation_attempt : ℕ
saturation_attempt = 9

unfoldable pub exponent_for : ℕ → ℕ
exponent_for attempts = min (max attempts 1 - 1) saturation_attempt

unfoldable pub nominal_ms : ℕ → ℕ
unfolding exponent_for
nominal_ms attempts = min (base_backoff_ms * 2 ^ exponent_for attempts) max_backoff_ms

-- `nominal * (1 + JITTER_RATIO * (2 * random() - 1))`, with JITTER_RATIO 1 / 5, in units of
-- 1 / (5 * scale) ms: nominal * (5 * scale + (2 * draw - scale)).
unfoldable pub backoff_scaled : ℕ → ℕ → ℕ → ℕ
unfolding nominal_ms
backoff_scaled attempts draw scale = nominal_ms attempts * (4 * scale + 2 * draw)

-- `new Date(now.getTime() + delay)`: a Date keeps whole milliseconds.
unfoldable pub next_run_after : ℕ → ℕ → ℕ → ℕ → ℕ
unfolding backoff_scaled
next_run_after attempts now draw scale = now + backoff_scaled attempts draw scale / (5 * scale)

pow_bounds : (e : ℕ) → (1 ≤ 2 ^ e) × (e ≤ 9 → 2 ^ e ≤ 512)
pow_bounds e = (one-le-pow e 2 (omega arith), λ h. pow-le-pow_right (omega arith) h)

-- A nominal delay is at least the base and at most the cap.
pub nominal_bounds :
    (attempts : ℕ)
    → (base_backoff_ms ≤ nominal_ms attempts) × (nominal_ms attempts ≤ max_backoff_ms)
unfolding nominal_ms
nominal_bounds attempts = omega (arith, pow_bounds (exponent_for attempts))

-- The quotient of a scaled delay.
jitter_bounds :
    (n draw scale : ℕ)
    → draw < scale
    → let q = n * (4 * scale + 2 * draw) / (5 * scale) in (n * 4 < (q + 1) * 5) × (q * 5 ≤ n * 6)
jitter_bounds n draw scale h =
    let x = n * (4 * scale + 2 * draw) in
    let split = div-add-mod x (5 * scale) in
    let small : x % (5 * scale) < 5 * scale = mod-lt x (omega arith) in
    let drawn = mul-le-mul_left n (h) in
    (
      lt_of_mul-lt-mul_right scale (omega (arith, split, small)),
      le_of_mul-le-mul_right {k = scale} (omega (arith, split, drawn)) (omega arith),
    )

-- With a draw below 1 the next run lies 4 to 1080 seconds ahead, and within a fifth of the
-- nominal delay, rounded down to a millisecond.
pub next_run_after_bounds :
    (attempts now draw scale : ℕ)
    → draw < scale
    → (now + 4000 ≤ next_run_after attempts now draw scale)
      × (next_run_after attempts now draw scale ≤ now + 1080000)
      × (nominal_ms attempts * 4 < (next_run_after attempts now draw scale - now + 1) * 5)
      × ((next_run_after attempts now draw scale - now) * 5 ≤ nominal_ms attempts * 6)
unfolding next_run_after
next_run_after_bounds attempts now draw scale h =
    omega (arith, nominal_bounds attempts, jitter_bounds (nominal_ms attempts) draw scale h)

nominal_ms_lem :
    (attempts : ℕ)
    → nominal_ms attempts ≡ min (base_backoff_ms * 2 ^ exponent_for attempts) max_backoff_ms
unfolding nominal_ms
nominal_ms_lem attempts = refl

exponents :
    (attempts : ℕ)
    → 1 ≤ attempts
    → (attempts < 10 → exponent_for (attempts + 1) ≡ suc (exponent_for attempts))
      × (10 ≤ attempts → (exponent_for attempts ≡ 9) × (exponent_for (attempts + 1) ≡ 9))
unfolding exponent_for
exponents attempts h = omega arith

-- From the first attempt on, the delay without jitter doubles from attempt to attempt up to the
-- cap, where it stays.
pub nominal_doubles :
    (attempts : ℕ)
    → 1 ≤ attempts
    → nominal_ms (attempts + 1) ≡ min (2 * nominal_ms attempts) max_backoff_ms
nominal_doubles attempts h = elim (dec_lt attempts 10) [
  | yes early ↦
      let next : 2 ^ exponent_for (attempts + 1) ≡ 2 ^ exponent_for attempts * 2 =
        rw ((exponents attempts h).0 early) (pow-suc 2 (exponent_for attempts)) in
      omega (arith, next, nominal_ms_lem attempts, nominal_ms_lem (attempts + 1))
  | no late ↦
      let (now, then') = (exponents attempts h).1 (omega arith) in
      rw (nominal_ms_lem attempts, nominal_ms_lem (attempts + 1), now, then') refl
]
