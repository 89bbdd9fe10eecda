-- ===== src/Summary/Direction.antt =====
-- Which notification of front/src/hooks/useCartSummary.ts a change of the cart deserves.
use go_moda_mayor.Prelude.{
  ℕ, ◌≡◌, refl, ◌≢◌, ◌≤◌, ◌<◌, true, Option, none, some, arith, ltb, inl, inr, Bool-cases,
}
use mathlib.Core.Path.{subst}
use mathlib.Core.Option.{some-injective}
use go_moda_mayor.PriceQueue.{NotificationType, tier_unlocked, near_tier, tier_lost}
use go_moda_mayor.Pricing.{Number}
use go_moda_mayor.Summary.{
  SummaryTier, NextTier, CartSummary, AlertType, unlocked, lost, near, near_loss, Alert, is_up,
  is_down, is_near, is_edge, unlocked_alert, lost_alert, near_alert, edge_alert, candidate,
  tier_id_of,
}

-- The notification that an alert of each type shows.
abbrev pub shown_type : AlertType → NotificationType
shown_type unlocked = tier_unlocked
shown_type lost = tier_lost
shown_type near = near_tier
shown_type near_loss = near_tier

module _ {F : Type 0} where
  -- What an alert shows, and the tier that it is kept under, are those of its type: the present tier
  -- but for `near`, which is about the next one, with the number of items that are missing.
  abbrev pub Matches : CartSummary F → Alert F → AlertType → Type 0
  Matches current a near =
      (n : NextTier) × (current.next_tier ≡ some n)
      × (a.shown.tier_name ≡ some n.display_name)
      × (a.shown.items_needed ≡ some n.quantity_to_unlock)
      × (a.tier_id ≡ tier_id_of current.tier)
  Matches current a _ =
      (c : SummaryTier F) × (current.tier ≡ some c)
      × (a.shown.tier_name ≡ some c.display_name)
      × (a.shown.items_needed ≡ none)
      × (a.tier_id ≡ some c.id)

  -- What the two summaries have to show for an alert of each type.
  abbrev pub Reason : CartSummary F → CartSummary F → AlertType → Type 0
  Reason prev current unlocked =
      (c : SummaryTier F) × (p : SummaryTier F) × (current.tier ≡ some c)
      × (prev.tier ≡ some p)
      × (c.id ≢ p.id)
      × (p.min_quantity < c.min_quantity)
  Reason prev current lost =
      (c : SummaryTier F) × (p : SummaryTier F) × (current.tier ≡ some c)
      × (prev.tier ≡ some p)
      × (c.id ≢ p.id)
      × (c.min_quantity < p.min_quantity)
  Reason prev current near =
      (n : NextTier) × (current.next_tier ≡ some n)
      × (0 < n.quantity_to_unlock)
      × (n.quantity_to_unlock ≤ 3)
      × (prev.total_quantity < current.total_quantity)
  Reason prev current near_loss =
      (c : SummaryTier F) × (p : SummaryTier F) × (current.tier ≡ some c)
      × (prev.tier ≡ some p)
      × (c.id ≡ p.id)
      × (current.total_quantity ≡ c.min_quantity)
      × (current.total_quantity < prev.total_quantity)

  -- The tests of the four cases, read.
  is_up_lem :
      (current prev : Option (SummaryTier F))
      → is_up current prev ≡ true
      → (c : SummaryTier F) × (p : SummaryTier F) × (current ≡ some c)
        × (prev ≡ some p)
        × (c.id ≢ p.id)
        × (p.min_quantity < c.min_quantity)
  is_up_lem (some c) (some p) h = (c, p, refl, refl, ground arith, ground arith)
  is_up_lem none p h = cc
  is_up_lem (some c) none h = cc

  is_down_lem :
      (current prev : Option (SummaryTier F))
      → is_down current prev ≡ true
      → (c : SummaryTier F) × (p : SummaryTier F) × (current ≡ some c)
        × (prev ≡ some p)
        × (c.id ≢ p.id)
        × (c.min_quantity < p.min_quantity)
  is_down_lem (some c) (some p) h = (c, p, refl, refl, ground arith, ground arith)
  is_down_lem none p h = cc
  is_down_lem (some c) none h = cc

  is_edge_lem :
      (current prev : Option (SummaryTier F)) (before now : ℕ)
      → is_edge current prev before now ≡ true
      → (c : SummaryTier F) × (p : SummaryTier F) × (current ≡ some c)
        × (prev ≡ some p)
        × (c.id ≡ p.id)
        × (now ≡ c.min_quantity)
        × (now < before)
  is_edge_lem (some c) (some p) before now h =
      (c, p, refl, refl, ground arith, ground arith, ground arith)
  is_edge_lem none p before now h = cc
  is_edge_lem (some c) none before now h = cc

  -- An alert of a type that is about the present tier.
  abbrev Told : Option (SummaryTier F) → Alert F → AlertType → Type 0
  Told tier a type =
      (a.type ≡ type)
      × (a.shown.type ≡ shown_type type)
      × ((c : SummaryTier F) × (tier ≡ some c)
          × (a.shown.tier_name ≡ some c.display_name)
          × (a.shown.items_needed ≡ none)
          × (a.tier_id ≡ some c.id))

  lost_alert-Told :
      (c : Option (SummaryTier F)) (a : Alert F) → lost_alert c ≡ some a → Told c a lost
  unfolding lost_alert
  lost_alert-Told none a e = cc
  lost_alert-Told (some c) a e =
      subst (λ (a : Alert F). Told (some c) a lost) (some-injective _ _ e)
        (refl, refl, (c, refl, refl, refl, refl))

  edge_alert-Told :
      (c : Option (SummaryTier F)) (a : Alert F) → edge_alert c ≡ some a → Told c a near_loss
  unfolding edge_alert
  edge_alert-Told none a e = cc
  edge_alert-Told (some c) a e =
      subst (λ (a : Alert F). Told (some c) a near_loss) (some-injective _ _ e)
        (refl, refl, (c, refl, refl, refl, refl))

  near_alert_lem :
      (next : Option NextTier) (c : Option (SummaryTier F)) (a : Alert F)
      → near_alert next c ≡ some a
      → (a.type ≡ near)
        × (a.shown.type ≡ shown_type near)
        × ((n : NextTier) × (next ≡ some n)
            × (a.shown.tier_name ≡ some n.display_name)
            × (a.shown.items_needed ≡ some n.quantity_to_unlock)
            × (a.tier_id ≡ tier_id_of c))
  unfolding near_alert
  near_alert_lem none c a e = cc
  near_alert_lem (some n) c a e =
      subst
        (λ (a : Alert F).
          (a.type ≡ near)
          × (a.shown.type ≡ shown_type near)
          × ((m : NextTier) × (some n ≡ some m)
              × (a.shown.tier_name ≡ some m.display_name)
              × (a.shown.items_needed ≡ some m.quantity_to_unlock)
              × (a.tier_id ≡ tier_id_of c)))
        (some-injective _ _ e) (refl, refl, (n, refl, refl, refl, refl))

is_near_lem :
    (next : Option NextTier)
    → is_near next ≡ true
    → (n : NextTier) × (next ≡ some n) × (0 < n.quantity_to_unlock) × (n.quantity_to_unlock ≤ 3)
is_near_lem none h = cc
is_near_lem (some n) h = (n, refl, ground arith, ground arith)

module _ {F : Type 0} ⦃n : Number F⦄ where
  unlocked_alert-Told :
      (before now : F) (c : Option (SummaryTier F)) (a : Alert F)
      → unlocked_alert before now c ≡ some a
      → Told c a unlocked
  unfolding unlocked_alert
  unlocked_alert-Told before now none a e = cc
  unlocked_alert-Told before now (some c) a e =
      subst (λ (a : Alert F). Told (some c) a unlocked) (some-injective _ _ e)
        (refl, refl, (c, refl, refl, refl, refl))

  -- An alert with its reason, and what it shows.
  abbrev pub IsDue : CartSummary F → CartSummary F → Alert F → Type 0
  IsDue prev current a =
      Reason prev current a.type × (a.shown.type ≡ shown_type a.type) × Matches current a a.type

  -- An alert is raised only for its reason: a tier with a higher minimum for `unlocked`, one with a
  -- lower minimum for `lost`, at most three items missing to the next tier and more items than before
  -- for `near`, and the same tier with the quantity come down to its minimum for `near_loss`; and it
  -- shows the notification of its type, about the tier that it is about.
  pub candidate-Reason :
      (prev current : CartSummary F) (a : Alert F)
      → candidate prev current ≡ some a
      → IsDue prev current a
  unfolding candidate
  candidate-Reason prev current a e = elim (Bool-cases (is_up current.tier prev.tier)) [
    | inl up ↦
        let told = unlocked_alert-Told _ _ current.tier a (rw up at e) in
        rw told.0 (is_up_lem current.tier prev.tier up, told.1, told.2)
    | inr not_up ↦ elim (Bool-cases (is_down current.tier prev.tier)) [
      | inl down ↦
          let told = lost_alert-Told current.tier a (rw (not_up, down) at e) in
          rw told.0 (is_down_lem current.tier prev.tier down, told.1, told.2)
      | inr not_down ↦ elim (Bool-cases (is_near current.next_tier)) [
        | inl close ↦ elim (Bool-cases (ltb prev.total_quantity current.total_quantity)) [
          | inl more ↦
              let (next, named, above, below) = is_near_lem current.next_tier close in
              let told =
                near_alert_lem current.next_tier current.tier a
                  (rw (not_up, not_down, close, more) at e) in
              rw told.0 ((next, named, above, below, ground arith), told.1, told.2)
          | inr same ↦ absurd (cc (rw (not_up, not_down, close, same) at e))
        ]
        | inr far ↦
            elim (Bool-cases
              (is_edge current.tier prev.tier prev.total_quantity current.total_quantity)) [
                | inl edge ↦
                    let told =
                      edge_alert-Told current.tier a (rw (not_up, not_down, far, edge) at e) in
                    rw told.0 (is_edge_lem current.tier prev.tier _ _ edge, told.1, told.2)
                | inr no_edge ↦ absurd (cc (rw (not_up, not_down, far, no_edge) at e))
              ]
      ]
    ]
  ]
