-- ===== src/Outbound/Spared.antt =====
-- A delivered message under the deliveries of others (src/slack/slack-delivery.service.ts).
use nivara_api_nestjs.Shared.{
  ◌∙◌, arith, eq_iff, sym, inr, inl, some, Bool-cases, refl, Option, [], ◌++◌, false, true, ◌+◌,
  if◌then◌else◌, ◌≡◌, ◌∷◌, List, ℕ, String,
}
use nivara_api_nestjs.Outbound.Delivery.{done, Channel, threw, Handled, SlackPost}
use nivara_api_nestjs.Outbound.Settling.{Delivered-unclaimable, Delivered}
use nivara_api_nestjs.Outbound.Deliveries.{
  attempt_rows, find_delivery, any_claimable, is_of_message, Deliveries, OutboundDelivery,
}
use mathlib.Core.List.{[]}
use Prim.Native.String.{◌∷◌, String}

-- How many posts of a message to a target were made.
unfoldable pub posts_for :
    (tenant message target : String) → List (OutboundDelivery × SlackPost) → ℕ
posts_for tenant message target [] = 0
posts_for tenant message target (p ∷ ps) =
    (if is_of_message tenant message target p.0 then 1 else 0) + posts_for tenant message target ps

abbrev pub after : Handled → Channel
after (done c) = c
after (threw c e) = c

find_delivery-key :
    (tenant message target : String) (ds : Deliveries) (d : OutboundDelivery)
    → find_delivery tenant message target ds ≡ some d
    → is_of_message tenant message target d ≡ true
unfolding find_delivery
find_delivery-key tenant message target [] d f = cc
find_delivery-key tenant message target (x ∷ xs) d f =
    elim (Bool-cases (is_of_message tenant message target x)) [
      | inr other ↦ find_delivery-key tenant message target xs d (rw (other, find_delivery) at f)
      | inl mine ↦
          let f' : ◌≡◌ {A = Option OutboundDelivery} (some x) (some d) =
            rw (mine, find_delivery) at f in
          let same : x ≡ d = cc in rw (sym same) mine
    ]

same_keys :
    (t m g t' m' g' : String) (d : OutboundDelivery)
    → is_of_message t m g d ≡ true
    → is_of_message t' m' g' d ≡ true
    → (t ≡ t') × (m ≡ m') × (g ≡ g')
unfolding is_of_message
same_keys t m g t' m' g' d a b = (
  sym ((eq_iff d.tenant_id t).0 ground arith) ∙ (eq_iff d.tenant_id t').0 ground arith,
  sym ((eq_iff d.message_id m).0 ground arith) ∙ (eq_iff d.message_id m').0 ground arith,
  sym ((eq_iff d.target g).0 ground arith) ∙ (eq_iff d.target g').0 ground arith,
)

module _ (tenant message target : String) where
  pub posts_for-other :
      (d : OutboundDelivery) (post : SlackPost) (ps : List (OutboundDelivery × SlackPost))
      → is_of_message tenant message target d ≡ false
      → posts_for tenant message target (ps ++ (d, post) ∷ []) ≡ posts_for tenant message target ps
  unfolding posts_for
  posts_for-other d post [] other = rw other refl
  posts_for-other d post (p ∷ ps) other = rw (posts_for-other d post ps other) refl

  -- The delivery stands, and the posts of the message are as many as before.
  pub record Spared (before : ℕ) (c : Channel) : Type 0 where
    pub stands : Delivered tenant message target c.deliveries
    pub posts : posts_for tenant message target c.posts ≡ before

  -- A claimed row of another message or target.
  pub find_delivery-other :
      (tenant' message' target' : String) (ds : Deliveries) (d : OutboundDelivery)
      → Delivered tenant message target ds
      → any_claimable tenant' message' target' ds ≡ true
      → find_delivery tenant' message' target' (attempt_rows tenant' message' target' ds) ≡ some d
      → is_of_message tenant message target d ≡ false
  find_delivery-other tenant' message' target' ds d v e f =
      elim (Bool-cases (is_of_message tenant message target d)) [
        | inr other ↦ other
        | inl mine ↦
            let theirs =
              find_delivery-key tenant' message' target' (attempt_rows tenant' message' target' ds)
                d f in
            let (t, m, g) =
              same_keys tenant message target tenant' message' target' d mine theirs in
            let e' : any_claimable tenant message target ds ≡ true = rw (t, m, g) e in
            absurd
              (let none_left = Delivered-unclaimable tenant message target ds v in ground arith)
      ]
