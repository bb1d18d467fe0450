-- ===== src/Outbound/Target.antt =====
-- src/slack/slack-target.ts.
use nivara_api_nestjs.Shared.{
  refl, [], ◌∷◌, ap, ◌∙◌, false, ◌≡◌, some, none, ◌||◌, str_eq, if◌then◌else◌, Option, List, String,
  split_on,
}
use nivara_api_nestjs.Shared.Uuid.{codes}
use nivara_api_nestjs.Shared.Splits.{Lacks, split_on-append, split_on-whole}
use text.Mathlib.TextLemmas.{nil-append, cons-append}
use Prim.Native.String.{String}
use Prim.Native.String

unfoldable pub slack_target : String → String → String
slack_target channel_id thread_ts = String.◌++◌ channel_id (String.◌++◌ "/" thread_ts)

pub record SlackDestination : Type 0 where
  pub channel_id : String
  pub thread_ts : String

destination_of : String → String → Option SlackDestination
destination_of channel_id thread_ts =
    if str_eq channel_id "" || str_eq thread_ts ""
    then none
    else some (record { channel_id = channel_id; thread_ts = thread_ts })

destination_in : List String → Option SlackDestination
unfolding destination_of
destination_in (channel_id ∷ thread_ts ∷ []) = destination_of channel_id thread_ts
destination_in _ = none

-- `target.split('/')`
unfoldable pub parse_slack_target : String → Option SlackDestination
unfolding destination_in split_on
parse_slack_target target = destination_in (split_on 47 target)

-- property
pub parse_slack_target-slack_target :
    (channel_id thread_ts : String)
    → str_eq channel_id "" ≡ false
    → str_eq thread_ts "" ≡ false
    → Lacks 47 (codes channel_id)
    → Lacks 47 (codes thread_ts)
    → parse_slack_target (slack_target channel_id thread_ts)
      ≡ some (record { channel_id = channel_id; thread_ts = thread_ts })
unfolding parse_slack_target slack_target destination_in destination_of
parse_slack_target-slack_target channel_id thread_ts c t no_slash no_slash' =
    rw
      (
        cons-append "/" "" thread_ts ∙ ap (String.◌∷◌ "/") (nil-append thread_ts),
        split_on-append channel_id thread_ts "/" no_slash,
        split_on-whole thread_ts 47 no_slash',
        c,
        t,
      )
      refl
