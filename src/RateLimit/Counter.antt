-- ===== src/RateLimit/Counter.antt =====
-- src/rate-limit/rate-limit.service.ts, rate-limit.guard.ts, slack-rate-limit.middleware.ts and
-- rate-limited.ts. Redis' INCR and EXPIRE work on a list of keys with their counts and the instants
-- at which they lapse.
use nivara_api_nestjs.RateLimit.FixedWindow.{
  allowed, denied, RateLimit, decide, RateLimitDecision, window_bucket,
}
use nivara_api_nestjs.Errors.{rate_limited, fail, throw, ok, Result}
use nivara_api_nestjs.Shared.{
  [], true, ltb, str_eq, Bool, if◌then◌else◌, none, some, ◌*◌, Option, ◌+◌, ◌∷◌, List, String, ℕ,
}
use nivara_api_nestjs.Principal.{RequestPrincipal}
use nivara_api_nestjs.RateLimit.ClientIp.{IncomingMessage, client_ip}
use Prim.Native.Nat.{ℕ}
use Prim.Native.String.{String}
use nivara_api_nestjs.RateLimit.Keys.{authenticated_key, slack_global_key, slack_ip_key}

abbrev pub Counters : Type 0
Counters = List (String × (ℕ × ℕ))

unfoldable pub counter : String → Counters → Option (ℕ × ℕ)
counter key [] = none
counter key ((k, v) ∷ rest) = if str_eq k key then some v else counter key rest

unfoldable pub put_counter : String → ℕ × ℕ → Counters → Counters
put_counter key v [] = (key, v) ∷ []
put_counter key v ((k, w) ∷ rest) =
    let others = put_counter key v rest in if str_eq k key then (k, v) ∷ rest else (k, w) ∷ others

-- A key that has lapsed counts from 0.
unfoldable pub live_count : ℕ → Option (ℕ × ℕ) → ℕ
live_count now_ms none = 0
live_count now_ms (some (n, lapses)) = if ltb now_ms lapses then n else 0

unfoldable pub counted : String → ℕ → ℕ → Counters → Counters × ℕ
unfolding counter put_counter live_count
counted key window_seconds now_ms counters =
    let n = live_count now_ms (counter key counters) + 1 in
    (put_counter key (n, now_ms + window_seconds * 1000) counters, n)

-- How a call of Redis ends: with a count, with a counted hit whose reply is not had, or, as it does
-- without a client, with none at all.
pub data Reach : Type 0 where
  answered lost unreachable : Reach

-- `multi().incr(key).expire(key, windowSeconds).exec()`
unfoldable pub hit : Reach → String → ℕ → ℕ → Counters → Counters × Option ℕ
unfolding counted
hit answered key window_seconds now_ms counters =
    let (counters', n) = counted key window_seconds now_ms counters in (counters', some n)
hit lost key window_seconds now_ms counters =
    let (counters', n) = counted key window_seconds now_ms counters in (counters', none)
hit unreachable key window_seconds now_ms counters = (counters, none)

unfoldable pub check :
    Reach → (ℕ → String) → RateLimit → ℕ → Counters → Counters × RateLimitDecision
unfolding hit window_bucket decide
check reach key l now_ms counters =
    let (counters', n) =
      hit reach (key (window_bucket now_ms l.window_seconds)) l.window_seconds now_ms counters in
    (counters', decide n l now_ms)

-- `refuse` throws; the headers that it sets are for the caller to read.
abbrev pub refuse : RateLimitDecision → Result Bool
refuse allowed = ok true
refuse (denied limit retry) = throw (fail rate_limited)

unfoldable pub can_proceed :
    Reach → Option RequestPrincipal → RateLimit → ℕ → Counters → Counters × Result Bool
unfolding check authenticated_key
can_proceed reach none l now_ms counters = (counters, ok true)
can_proceed reach (some p) l now_ms counters =
    let (counters', decision) = check reach (authenticated_key p) l now_ms counters in
    (counters', refuse decision)

-- The second counter is hit only by a request that the first one lets through.
and_global : Reach → RateLimit → ℕ → Counters × RateLimitDecision → Counters × Result Bool
unfolding check slack_global_key
and_global reach global now_ms (counters, denied limit retry) =
    (counters, throw (fail rate_limited))
and_global reach global now_ms (counters, allowed) =
    let (counters', decision) = check reach slack_global_key global now_ms counters in
    (counters', refuse decision)

unfoldable pub use_slack :
    (by_ip by_all : Reach)
    → (per_ip global : RateLimit) → IncomingMessage
    → ℕ
    → Counters
    → Counters × Result Bool
unfolding and_global check slack_ip_key client_ip
use_slack by_ip by_all per_ip global request now_ms counters =
    and_global by_all global now_ms
      (check by_ip (slack_ip_key (client_ip request)) per_ip now_ms counters)
