-- ===== src/RateLimit/Waiting.antt =====
-- What a request is told that src/rate-limit/rate-limit.service.ts denies, and that waiting helps.
use nivara_api_nestjs.Shared.{arith, ◌≢◌, ◌*◌, ◌+◌, ◌≤◌, ◌<◌, ◌≡◌, String, ℕ}
use nivara_api_nestjs.RateLimit.FixedWindow.{decide-denied, window_bucket, denied, RateLimit}
use nivara_api_nestjs.RateLimit.Keys.{
  slack_global_key, slack_ip_key, authenticated_key, principal_ref,
}
use nivara_api_nestjs.Principal.{tenant_of, RequestPrincipal}
use nivara_api_nestjs.RateLimit.Counter.{Counters, Reach, check}
use Prim.Native.Nat.{ℕ}
use text.Mathlib.TextLemmas.{append_cancel_left}
use nivara_api_nestjs.Shared.Decimals.{decimal-injective}

-- The keys that requests are counted under, as functions of the window.
pub data CountedKey : (ℕ → String) → Type 0 where
  of_principal : (p : RequestPrincipal) → CountedKey (authenticated_key p)
  of_slack_ip : (ip : String) → CountedKey (slack_ip_key ip)
  of_slack : CountedKey slack_global_key

CountedKey-injective : {key : ℕ → String} → CountedKey key → (a b : ℕ) → key a ≡ key b → a ≡ b
unfolding authenticated_key slack_ip_key slack_global_key
CountedKey-injective (of_principal p) a b e = decimal-injective a b (
    append_cancel_left ":" _ _ (
      append_cancel_left (principal_ref p) _ _ (
        append_cancel_left ":" _ _
          (append_cancel_left (tenant_of p) _ _ (append_cancel_left "rl:auth:" _ _ e)))))
CountedKey-injective (of_slack_ip ip) a b e = decimal-injective a b (
    append_cancel_left ":" _ _
      (append_cancel_left ip _ _ (append_cancel_left "rl:slack:ip:" _ _ e)))
CountedKey-injective of_slack a b e =
    decimal-injective a b (append_cancel_left "rl:slack:global:" _ _ e)

-- A request that is denied, under a window of at least a second, is told the limit and to wait at
-- least a second and at most a window, and whoever waits that long is counted under another key
-- than that of the denied request, be the key that of a principal, of an address of Slack or of
-- all of Slack.
pub check-denied :
    (reach : Reach) (key : ℕ → String) (l : RateLimit) (now_ms : ℕ) (counters : Counters) (n r : ℕ)
    → CountedKey key
    → 0 < l.window_seconds
    → (check reach key l now_ms counters).1 ≡ denied n r
    → (n ≡ l.limit)
      × (1 ≤ r)
      × (r ≤ l.window_seconds)
      × (key (window_bucket (now_ms + r * 1000) l.window_seconds)
          ≢ key (window_bucket now_ms l.window_seconds))
unfolding check
check-denied reach key l now_ms counters n r counted_by h e =
    let (limit, least, most, later) = decide-denied _ l now_ms n r h e in
    (
      limit,
      least,
      most,
      λ same.
          let bucket =
            CountedKey-injective counted_by (window_bucket (now_ms + r * 1000) l.window_seconds)
              (window_bucket now_ms l.window_seconds) same in
          absurd (omega (arith, later, bucket)),
    )
