-- ===== src/Outbound/Once.antt =====
-- A delivered message is not posted again by src/slack/slack-delivery.service.ts.
use nivara_api_nestjs.Outbound.Spared.{after, Spared, posts_for}
use nivara_api_nestjs.Shared.{All, refl, [], ◌≡◌, ◌∷◌, List, ℕ, String}
use nivara_api_nestjs.Outbound.Delivery.{handle, JobContext, Channel, PostOutcome, SlackPost}
use nivara_api_nestjs.Outbound.Settling.{Delivered}
use nivara_api_nestjs.Value.{Fields}
use nivara_api_nestjs.Errors.{Thrown}
use nivara_api_nestjs.Outbound.Deliveries.{Deliveries}
use mathlib.Core.List.{[]}
use Prim.Native.String.{◌∷◌, String}
use nivara_api_nestjs.Outbound.Sparing.{handle-Spared}

-- A run of the handler: the client, the other transactions, the clock and the job.
pub record Run : Type 0 where
  pub slack : SlackPost → PostOutcome
  pub between : Deliveries → Deliveries
  pub describe : Thrown → String
  pub target_error : String → String
  pub now : ℕ
  pub context : JobContext
  pub payload : Fields

unfoldable pub run_all : List Run → Channel → Channel
unfolding handle
run_all [] c = c
run_all (r ∷ rs) c =
    run_all rs
      (after (handle r.slack r.between r.describe r.target_error r.now r.context r.payload c))

-- What others commit during a run leaves the delivery delivered.
abbrev pub Harmless : (tenant message target : String) → Run → Type 0
Harmless tenant message target r =
    (ds : Deliveries)
    → Delivered tenant message target ds
    → Delivered tenant message target (r.between ds)

run_all-Spared :
    (tenant message target : String) (n : ℕ) (rs : List Run) (c : Channel)
    → All (Harmless tenant message target) rs
    → Spared tenant message target n c
    → Spared tenant message target n (run_all rs c)
unfolding run_all
run_all-Spared tenant message target n [] c h s = s
run_all-Spared tenant message target n (r ∷ rs) c (h, hs) s =
    run_all-Spared tenant message target n rs
      (after (handle r.slack r.between r.describe r.target_error r.now r.context r.payload c)) hs
      (handle-Spared r.slack r.between r.describe r.target_error r.now r.context tenant message
        target n r.payload c h s)

-- Once the delivery of a message to a target is recorded as delivered, it stays so through any
-- sequence of runs of delivery jobs, of whatever payload and tenant, whatever Slack answers, and
-- the message is not posted to the target again, if what other transactions commit during a run
-- leaves it delivered.
pub posted_once :
    (tenant message target : String) (rs : List Run) (c : Channel)
    → All (Harmless tenant message target) rs
    → Delivered tenant message target c.deliveries
    → (Delivered tenant message target (run_all rs c).deliveries)
      × (posts_for tenant message target (run_all rs c).posts
          ≡ posts_for tenant message target c.posts)
posted_once tenant message target rs c h v =
    let s =
      run_all-Spared tenant message target (posts_for tenant message target c.posts) rs c h
        (record { stands = v; posts = refl }) in
    (s.stands, s.posts)
