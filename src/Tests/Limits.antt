-- ===== src/Tests/Limits.antt =====
-- Runs of the rate limit of src/rate-limit.
use nivara_api_nestjs.Shared.{
  decimal, ◌≢◌, ◌*◌, arith, ◌+◌, refl, [], ◌∷◌, ◌≤◌, String, ◌≡◌, List, ℕ,
}
use nivara_api_nestjs.RateLimit.Keys.{slack_global_key}
use nivara_api_nestjs.RateLimit.Waiting.{check-denied, of_slack}
use nivara_api_nestjs.RateLimit.Counter.{counter, check, answered, unreachable, Counters}
use nivara_api_nestjs.RateLimit.FixedWindow.{window_bucket, RateLimit}
use nivara_api_nestjs.RateLimit.Admission.{
  admitted-le-limit, Request, unanswered, admitted, name_of,
}
use Prim.Native.Nat.{ℕ}

abbrev two_a_minute : RateLimit
two_a_minute = record { limit = 2; window_seconds = 60 }

abbrev by_bucket : ℕ → String
by_bucket bucket = "rl:auth:acme"

abbrev request_at : ℕ → Request
request_at at = record { reach = answered; key = by_bucket; limit = two_a_minute; at = at }

-- Redis answers the first, second and fourth of them.
abbrev four_requests : List Request
four_requests =
    request_at 1000
    ∷ request_at 2000
    ∷ record (request_at 3000) { reach = unreachable }
    ∷ request_at 4000
    ∷ []

admitted-le-limit_example :
    admitted "rl:auth:acme" four_requests [] ≤ 2 + unanswered "rl:auth:acme" four_requests
unfolding name_of window_bucket counter
admitted-le-limit_example =
    admitted-le-limit "rl:auth:acme" two_a_minute 0 (omega arith) four_requests []
      ((λ e. (refl, refl)), ((λ e. (refl, refl)), ((λ e. (refl, refl)), ((λ e. (refl, refl)), tt))))
      refl

admitted_run : admitted "rl:auth:acme" four_requests [] ≡ 3
unfolding admitted name_of check
admitted_run = refl

abbrev spent : Counters
spent = ("rl:slack:global:0", (2, 62000)) ∷ []

check-denied_example :
    (2 ≡ two_a_minute.limit)
    × (1 ≤ 57)
    × (57 ≤ 60)
    × (slack_global_key (window_bucket (3000 + 57 * 1000) 60)
        ≢ slack_global_key (window_bucket 3000 60))
unfolding decimal
check-denied_example =
    check-denied answered slack_global_key two_a_minute 3000 spent 2 57 of_slack (omega arith)
      (unfold check slack_global_key decimal in refl)
