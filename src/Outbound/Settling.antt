-- ===== src/Outbound/Settling.antt =====
-- A delivery that is recorded as delivered, under the statements of
-- src/slack/slack-delivery.service.ts and src/outbound/outbound-dispatch.service.ts.
use nivara_api_nestjs.Errors.{ok, throw, Result}
use nivara_api_nestjs.Outbound.Deliveries.{
  any_id, is_pending, any_claimable, record_delivered, settle, is_delivered, has_id,
  is_claimable_for, unsettled, Unsettled, recorded, any_delivered_id, is_of_message, Deliveries,
  OutboundDelivery, attempt_rows, has_delivery, set_rows,
}
use nivara_api_nestjs.Shared.{
  inl, inr, arith, not, refl, ◌||◌, Bool-cases, false, true, ◌&&◌, Bool, [], ℕ, ◌∙◌, ◌∷◌, ◌≡◌,
  String,
}
use Prim.Native.String.{[], ◌∷◌, String}

unfoldable pub is_undelivered : (tenant message target : String) → OutboundDelivery → Bool
is_undelivered tenant message target d =
    is_of_message tenant message target d && not (is_delivered d.status)

unfoldable pub any_undelivered : (tenant message target : String) → Deliveries → Bool
unfolding is_undelivered
any_undelivered tenant message target [] = false
any_undelivered tenant message target (d ∷ ds) =
    is_undelivered tenant message target d || any_undelivered tenant message target ds

-- The message has a delivery to the target, and it is delivered.
pub record Delivered (tenant message target : String) (ds : Deliveries) : Type 0 where
  pub held : has_delivery tenant message target ds ≡ true
  pub settled : any_undelivered tenant message target ds ≡ false

module _ (tenant message target : String) where
  -- What an update keeps of a row.
  pub record KeptDelivery (d d' : OutboundDelivery) : Type 0 where
    pub same : is_of_message tenant message target d' ≡ is_of_message tenant message target d
    pub stays :
        is_undelivered tenant message target d ≡ false
        → is_undelivered tenant message target d' ≡ false

  pub data KeptDeliveries : Deliveries → Deliveries → Type 0 where
    no_rows : KeptDeliveries [] []
    kept :
        {d d' : OutboundDelivery} {ds ds' : Deliveries}
        → KeptDelivery d d'
        → KeptDeliveries ds ds'
        → KeptDeliveries (d ∷ ds) (d' ∷ ds')

  held-Kept :
      {ds ds' : Deliveries}
      → KeptDeliveries ds ds'
      → has_delivery tenant message target ds' ≡ has_delivery tenant message target ds
  unfolding has_delivery
  held-Kept no_rows = refl
  held-Kept (kept k ks) = rw (k.same, held-Kept ks) refl

  settled-Kept :
      {ds ds' : Deliveries}
      → KeptDeliveries ds ds'
      → any_undelivered tenant message target ds ≡ false
      → any_undelivered tenant message target ds' ≡ false
  unfolding any_undelivered
  settled-Kept no_rows e = refl
  settled-Kept (kept {d} {d'} k ks) e =
      let before : is_undelivered tenant message target d ≡ false = ground arith in
      let rest = settled-Kept ks ground arith in rw (k.stays before, rest) refl

  Delivered-Kept :
      {ds ds' : Deliveries}
      → KeptDeliveries ds ds'
      → Delivered tenant message target ds
      → Delivered tenant message target ds'
  Delivered-Kept ks v = record { held = held-Kept ks ∙ v.held; settled = settled-Kept ks v.settled }

  KeptDelivery-refl : (d : OutboundDelivery) → KeptDelivery d d
  KeptDelivery-refl d = record { same = refl; stays = λ e. e }

  attempt_rows-Kept :
      (tenant' message' target' : String) (ds : Deliveries)
      → KeptDeliveries ds (attempt_rows tenant' message' target' ds)
  unfolding attempt_rows is_of_message is_undelivered is_delivered
  attempt_rows-Kept tenant' message' target' [] = no_rows
  attempt_rows-Kept tenant' message' target' (d ∷ ds) =
      let rest = attempt_rows-Kept tenant' message' target' ds in
      elim (Bool-cases (is_claimable_for tenant' message' target' d)) [
        | inr other ↦ rw other (kept (KeptDelivery-refl d) rest)
        | inl mine ↦ rw mine (kept (record { same = refl; stays = λ e. e }) rest)
      ]

  recorded-Kept :
      (tenant' id external_id : String) (now : ℕ) (ds : Deliveries)
      → KeptDeliveries ds (set_rows tenant' id (recorded external_id now) ds)
  unfolding set_rows is_of_message is_undelivered is_delivered
  recorded-Kept tenant' id external_id now [] = no_rows
  recorded-Kept tenant' id external_id now (d ∷ ds) =
      let rest = recorded-Kept tenant' id external_id now ds in
      elim (Bool-cases (has_id tenant' id d)) [
        | inr other ↦ rw other (kept (KeptDelivery-refl d) rest)
        | inl mine ↦ rw mine (kept (record { same = refl; stays = λ e. ground arith }) rest)
      ]

  row_other :
      (d : OutboundDelivery)
      → is_delivered d.status ≡ false
      → is_undelivered tenant message target d ≡ false
      → is_of_message tenant message target d ≡ false
  unfolding is_undelivered
  row_other d e u = ground arith

  row_undelivered :
      (d : OutboundDelivery)
      → is_of_message tenant message target d ≡ false
      → is_undelivered tenant message target d ≡ false
  unfolding is_undelivered
  row_undelivered d other = ground arith

  unsettled_row :
      (tenant' id : String) (status : Unsettled) (error : String) (d : OutboundDelivery)
      → (has_id tenant' id d && is_delivered d.status) ≡ false
      → is_undelivered tenant message target d ≡ false
      → has_id tenant' id d ≡ true
      → KeptDelivery d (unsettled status error d)
  unfolding is_undelivered is_of_message
  unsettled_row tenant' id status error d e u mine =
      let other : is_of_message tenant message target d ≡ false = row_other d ground arith u in
      record { same = refl; stays = λ _. row_undelivered (unsettled status error d) other }

  unsettled-Kept :
      (tenant' id : String) (status : Unsettled) (error : String) (ds : Deliveries)
      → any_delivered_id tenant' id ds ≡ false
      → any_undelivered tenant message target ds ≡ false
      → KeptDeliveries ds (set_rows tenant' id (unsettled status error) ds)
  unfolding set_rows any_delivered_id any_undelivered
  unsettled-Kept tenant' id status error [] e u = no_rows
  unsettled-Kept tenant' id status error (d ∷ ds) e u =
      let rest = unsettled-Kept tenant' id status error ds ground arith ground arith in
      elim (Bool-cases (has_id tenant' id d)) [
        | inr other ↦ rw other (kept (KeptDelivery-refl d) rest)
        | inl mine ↦
            rw mine
              (kept (unsettled_row tenant' id status error d ground arith ground arith mine) rest)
      ]

  -- The statements, where they return.
  abbrev pub StillDelivered : Result Deliveries → Type 0
  StillDelivered (throw e) = Unit
  StillDelivered (ok ds) = Delivered tenant message target ds

  pub attempt_rows-Delivered :
      (tenant' message' target' : String) (ds : Deliveries)
      → Delivered tenant message target ds
      → Delivered tenant message target (attempt_rows tenant' message' target' ds)
  attempt_rows-Delivered tenant' message' target' ds =
      Delivered-Kept (attempt_rows-Kept tenant' message' target' ds)

  pub record_delivered-Delivered :
      (tenant' id external_id : String) (now : ℕ) (ds : Deliveries)
      → Delivered tenant message target ds
      → StillDelivered (record_delivered tenant' id external_id now ds)
  unfolding record_delivered
  record_delivered-Delivered tenant' id external_id now ds v =
      elim (Bool-cases (any_id tenant' id ds)) [
        | inr gone ↦ rw gone tt
        | inl found ↦ rw found (Delivered-Kept (recorded-Kept tenant' id external_id now ds) v)
      ]

  pub settle-Delivered :
      (tenant' id : String) (status : Unsettled) (error : String) (ds : Deliveries)
      → Delivered tenant message target ds
      → StillDelivered (settle tenant' id status error ds)
  unfolding settle
  settle-Delivered tenant' id status error ds v = elim (Bool-cases (any_id tenant' id ds)) [
    | inr gone ↦ rw gone tt
    | inl found ↦ elim (Bool-cases (any_delivered_id tenant' id ds)) [
      | inl refused ↦ rw (found, refused) tt
      | inr standing ↦
          rw (found, standing)
            (Delivered-Kept (unsettled-Kept tenant' id status error ds standing v.settled) v)
    ]
  ]

  -- A row of the message and the target is not claimable.
  any_claimable-undelivered :
      (ds : Deliveries)
      → any_undelivered tenant message target ds ≡ false
      → any_claimable tenant message target ds ≡ false
  unfolding any_claimable any_undelivered is_claimable_for is_undelivered is_pending is_delivered
  any_claimable-undelivered [] e = refl
  any_claimable-undelivered (d ∷ ds) e =
      let rest = any_claimable-undelivered ds ground arith in ground arith

  pub Delivered-unclaimable :
      (ds : Deliveries)
      → Delivered tenant message target ds
      → any_claimable tenant message target ds ≡ false
  Delivered-unclaimable ds v = any_claimable-undelivered ds v.settled
