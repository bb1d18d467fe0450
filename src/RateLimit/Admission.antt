-- ===== src/RateLimit/Admission.antt =====
-- How many requests of a window the counter of src/rate-limit/rate-limit.service.ts lets through.
use nivara_api_nestjs.RateLimit.Counter.{
  counted, hit, check, Reach, answered, lost, unreachable, Counters, put_counter, counter,
  live_count,
}
use nivara_api_nestjs.Shared.{
  ◌∙◌, ◌||◌, not, ap, leb, inr, inl, Bool-cases, [], refl, ◌&&◌, eq_iff, false, min, none, ◌*◌, ◌≤◌,
  All, arith, if◌then◌else◌, some, ◌+◌, ◌∷◌, str_eq, true, ◌<◌, ◌≡◌, Bool, List, Option, String, ℕ,
}
use nivara_api_nestjs.RateLimit.FixedWindow.{
  decide, in_window, allowed, denied, RateLimit, window_bucket, RateLimitDecision,
}
use mathlib.Core.List.{[]}
use Prim.Native.Nat.{min, ℕ}
use mathlib.Core.Option.{none}
use Prim.Native.String.{◌∷◌, String}

-- A request that is checked: how the call of Redis ends, the caller's keys, the limit that is asked
-- about, and the instant.
pub record Request : Type 0 where
  pub reach : Reach
  pub key : ℕ → String
  pub limit : RateLimit
  pub at : ℕ

-- The counter that a request is counted by.
unfoldable pub name_of : Request → String
name_of r = r.key (window_bucket r.at r.limit.window_seconds)

abbrev pub is_allowed : RateLimitDecision → Bool
is_allowed allowed = true
is_allowed (denied limit retry) = false

-- How many of the requests that are counted under a name are allowed, one after the other, with
-- any others between them.
unfoldable pub admitted : String → List Request → Counters → ℕ
admitted name [] counters = 0
admitted name (r ∷ rs) counters =
    let (counters', decision) = check r.reach r.key r.limit r.at counters in
    (if str_eq (name_of r) name && is_allowed decision then 1 else 0) + admitted name rs counters'

abbrev pub is_answered : Reach → Bool
is_answered answered = true
is_answered lost = false
is_answered unreachable = false

-- How many of them Redis gave no count for.
unfoldable pub unanswered : String → List Request → ℕ
unanswered name [] = 0
unanswered name (r ∷ rs) =
    (if str_eq (name_of r) name && not (is_answered r.reach) then 1 else 0) + unanswered name rs

-- The requests under a name are those of one caller in one window.
abbrev pub OfWindow : String → RateLimit → ℕ → Request → Type 0
OfWindow name l b r =
    str_eq (name_of r) name ≡ true → (r.limit ≡ l) × (window_bucket r.at l.window_seconds ≡ b)

counter-put_counter :
    (k j : String) (v : ℕ × ℕ) (cs : Counters)
    → counter k (put_counter j v cs) ≡ (if str_eq j k then some v else counter k cs)
unfolding counter put_counter
counter-put_counter k j v [] = ground arith
counter-put_counter k j v ((i, w) ∷ cs) =
    ground (arith, eq_iff j k, eq_iff i j, eq_iff i k, counter-put_counter k j v cs)

-- A counter that stands at `n` until the window ends.
abbrev Stands : ℕ → ℕ → Option (ℕ × ℕ) → Type 0
Stands end n none = n ≡ 0
Stands end n (some (m, lapses)) = (m ≡ n) × (end ≤ lapses)

live_count-Stands :
    (end n now : ℕ) (o : Option (ℕ × ℕ)) → Stands end n o → now < end → live_count now o ≡ n
unfolding live_count
live_count-Stands end n now none h k = ground arith
live_count-Stands end n now (some (m, lapses)) h k = ground arith

decide-is_allowed :
    (n : ℕ) (l : RateLimit) (now : ℕ) → is_allowed (decide (some n) l now) ≡ leb n l.limit
unfolding decide
decide-is_allowed n l now = ground arith

abbrev is_counted : Reach → Bool
is_counted answered = true
is_counted lost = true
is_counted unreachable = false

counter-hit :
    (name : String) (reach : Reach) (key : String) (window now : ℕ) (cs : Counters)
    → counter name (hit reach key window now cs).0 ≡ (
        if str_eq key name && is_counted reach
        then some (live_count now (counter key cs) + 1, now + window * 1000)
        else counter name cs)
unfolding hit counted
counter-hit name answered key window now cs = ground (
  arith,
  counter-put_counter name key (live_count now (counter key cs) + 1, now + window * 1000) cs,
)
counter-hit name lost key window now cs = ground (
  arith,
  counter-put_counter name key (live_count now (counter key cs) + 1, now + window * 1000) cs,
)
counter-hit name unreachable key window now cs = ground arith

is_allowed-hit :
    (reach : Reach) (key : String) (l : RateLimit) (now : ℕ) (cs : Counters)
    → is_allowed (decide (hit reach key l.window_seconds now cs).1 l now)
      ≡ (not (is_answered reach) || leb (live_count now (counter key cs) + 1) l.limit)
unfolding hit counted
is_allowed-hit answered key l now cs = decide-is_allowed (live_count now (counter key cs) + 1) l now
is_allowed-hit lost key l now cs = unfold decide in refl
is_allowed-hit unreachable key l now cs = unfold decide in refl

-- A request counts where its name says, and nowhere else.
counter-check :
    (name : String) (r : Request) (cs : Counters)
    → counter name (check r.reach r.key r.limit r.at cs).0 ≡ (
        if str_eq (name_of r) name && is_counted r.reach
        then some
            (live_count r.at (counter (name_of r) cs) + 1, r.at + r.limit.window_seconds * 1000)
        else counter name cs)
unfolding check name_of
counter-check name r cs =
    counter-hit name r.reach (r.key (window_bucket r.at r.limit.window_seconds))
      r.limit.window_seconds r.at cs

is_allowed-check :
    (r : Request) (cs : Counters)
    → is_allowed (check r.reach r.key r.limit r.at cs).1 ≡ (
        not (is_answered r.reach)
        || leb (live_count r.at (counter (name_of r) cs) + 1) r.limit.limit)
unfolding check name_of
is_allowed-check r cs =
    is_allowed-hit r.reach (r.key (window_bucket r.at r.limit.window_seconds)) r.limit r.at cs

answered_bound :
    (n limit rest missed : ℕ) (allows : Bool)
    → allows ≡ leb (n + 1) limit
    → rest + min (n + 1) limit ≤ limit + missed
    → (if allows then 1 else 0) + rest + min n limit ≤ limit + missed
answered_bound n limit rest missed allows e h = ground arith

missed_bound :
    (n k limit rest missed : ℕ) (allows : Bool)
    → n ≤ k
    → rest + min k limit ≤ limit + missed
    → (if allows then 1 else 0) + rest + min n limit ≤ limit + (1 + missed)
missed_bound n k limit rest missed allows le h = ground arith

module _ (name : String) (l : RateLimit) (b : ℕ) (w : 0 < l.window_seconds) where
  abbrev window_end : ℕ
  window_end = (b + l.window_seconds) * 1000

  live_count_of_ours :
      (n : ℕ) (r : Request) (cs : Counters)
      → OfWindow name l b r
      → str_eq (name_of r) name ≡ true
      → Stands window_end n (counter name cs)
      → (live_count r.at (counter (name_of r) cs) ≡ n)
        × (window_end ≤ r.at + r.limit.window_seconds * 1000)
        × (r.limit.limit ≡ l.limit)
  live_count_of_ours n r cs h ours s =
      let (limit, bucket) = h ours in
      let (low, high) = in_window r.at l.window_seconds b w bucket in
      let named = (eq_iff (name_of r) name).0 ours in
      let seconds = ap (λ (x : RateLimit). x.window_seconds) limit in
      (
        rw named (live_count-Stands window_end n r.at (counter name cs) s high),
        rw seconds (omega (arith, low)),
        ap (λ (x : RateLimit). x.limit) limit,
      )

  -- What is admitted of a request of ours and of those after it.
  admitted_next :
      (reach : Reach) (n : ℕ) (rs : List Request) (cs' : Counters) (allows : Bool)
      → ((k : ℕ)
          → Stands window_end k (counter name cs')
          → admitted name rs cs' + min k l.limit ≤ l.limit + unanswered name rs)
      → allows ≡ (not (is_answered reach) || leb (n + 1) l.limit)
      → Stands window_end (if is_counted reach then n + 1 else n) (counter name cs')
      → (if allows then 1 else 0) + admitted name rs cs' + min n l.limit
        ≤ l.limit + ((if not (is_answered reach) then 1 else 0) + unanswered name rs)
  admitted_next answered n rs cs' allows rest a s = omega (
    arith,
    answered_bound n l.limit (admitted name rs cs') (unanswered name rs) allows a (rest (n + 1) s),
  )
  admitted_next lost n rs cs' allows rest a s =
      missed_bound n (n + 1) l.limit (admitted name rs cs') (unanswered name rs) allows
        (omega arith) (rest (n + 1) s)
  admitted_next unreachable n rs cs' allows rest a s =
      missed_bound n n l.limit (admitted name rs cs') (unanswered name rs) allows (omega arith)
        (rest n s)

  counter_after :
      (n lapses : ℕ) (b : Bool) (before after : Option (ℕ × ℕ))
      → after ≡ (if b then some (n + 1, lapses) else before)
      → window_end ≤ lapses
      → Stands window_end n before
      → Stands window_end (if b then n + 1 else n) after
  counter_after n lapses true before after e le s = rw e (refl, le)
  counter_after n lapses false before after e le s = rw e s

  admitted_from :
      (n : ℕ) (rs : List Request) (cs : Counters)
      → All (OfWindow name l b) rs
      → Stands window_end n (counter name cs)
      → admitted name rs cs + min n l.limit ≤ l.limit + unanswered name rs
  unfolding admitted unanswered
  admitted_from n [] cs h s = omega arith
  admitted_from n (r ∷ rs) cs (h, hs) s =
      let cs' = (check r.reach r.key r.limit r.at cs).0 in
      let allows = is_allowed (check r.reach r.key r.limit r.at cs).1 in
      elim (Bool-cases (str_eq (name_of r) name)) [
        | inl ours ↦
            let (count, lasts, limit) = live_count_of_ours n r cs h ours s in
            let is : allows ≡ (not (is_answered r.reach) || leb (n + 1) l.limit) =
              is_allowed-check r cs ∙ rw (count, limit) refl in
            let after = rw (ours, count) at (counter-check name r cs) in
            rw ours (
              admitted_next r.reach n rs cs' allows (λ k t. admitted_from k rs cs' hs t) is
                (counter_after n (r.at + r.limit.window_seconds * 1000) (is_counted r.reach)
                  (counter name cs) (counter name cs') after lasts s))
        | inr other ↦
            let after = rw other at (counter-check name r cs) in
            let rest = admitted_from n rs cs' hs (rw after s) in rw other (omega (arith, rest))
      ]

  -- Of the requests that one caller makes within one window, no more are allowed than the limit
  -- and those for which Redis gave no count, whatever others ask meanwhile, if the window is not
  -- empty and the caller has no counter yet.
  pub admitted-le-limit :
      (rs : List Request) (cs : Counters)
      → All (OfWindow name l b) rs
      → counter name cs ≡ none
      → admitted name rs cs ≤ l.limit + unanswered name rs
  admitted-le-limit rs cs h e = omega (arith, admitted_from 0 rs cs h (rw e refl))
