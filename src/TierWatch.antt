-- ===== src/TierWatch.antt =====
-- front/src/hooks/useCartTierNotifications.ts: the effect that watches the summary of the cart.
pub mod Laws
mod Tests
use go_moda_mayor.Prelude.{
  ℕ, Bool, true, false, not, ◌&&◌, Option, none, some, List, [], ◌∷◌, ◌++◌, String, ltb, ◌==◌,
  if◌then◌else◌, concat, text_or, str_eq,
}
use go_moda_mayor.Prelude.Decimal.{show_ℕ}
use go_moda_mayor.Pricing.{Number}
use go_moda_mayor.PriceQueue.{Notification, tier_unlocked, near_tier}
use go_moda_mayor.Summary.{
  SummaryTier, NextTier, CartSummary, id_or_null, tier_id_of, is_near, same_id,
}

-- `helper` tells whether `window.showPriceNotification` is there, and `shown` holds what it was
-- given, the oldest first.
pub record WatchState (F : Type 0) : Type 0 where
  pub last_tier_id : Option ℕ
  pub last_quantity : ℕ
  pub helper : Bool
  pub shown : List (Notification F)

-- Both are there, and they differ.
abbrev pub changed : Option ℕ → Option ℕ → Bool
changed (some a) (some b) = not (a == b)
changed _ _ = false

module _ {F : Type 0} ⦃n : Number F⦄ where
  open n use {is_truthy, show_number}

  discount : Option (SummaryTier F) → String
  discount none = ""
  discount (some t) =
      if is_truthy t.percentage then concat (show_number t.percentage ∷ "%" ∷ []) else ""

  level_name : Option (SummaryTier F) → String
  level_name none = "Nuevo nivel"
  level_name (some t) = text_or (some t.display_name) "Nuevo nivel"

  pub unlocked_note : Option (SummaryTier F) → Notification F
  unfolding discount level_name
  unlocked_note tier = record {
    type = tier_unlocked;
    message = concat (
        "¡Alcanzaste el nivel \""
        ∷ level_name tier
        ∷ "\"! "
        ∷ (if str_eq (discount tier) ""
            then ""
            else concat ("Ahora tenés " ∷ discount tier ∷ " de descuento." ∷ []))
        ∷ []);
    savings = none;
    tier_name = some (level_name tier);
    items_needed = none;
  }

module _ {F : Type 0} where
  near_note : NextTier → Notification F
  near_note t = record {
    type = near_tier;
    message = concat (
        "¡Agregá "
        ∷ show_ℕ t.quantity_to_unlock
        ∷ " "
        ∷ (if t.quantity_to_unlock == 1 then "prenda" else "prendas")
        ∷ " más para desbloquear \""
        ∷ t.display_name
        ∷ "\"!"
        ∷ []);
    savings = none;
    tier_name = some t.display_name;
    items_needed = some t.quantity_to_unlock;
  }

  show : Notification F → WatchState F → WatchState F
  show m s = if s.helper then record s { shown = s.shown ++ m ∷ [] } else s

  show_near : Option NextTier → ℕ → WatchState F → WatchState F
  unfolding near_note show
  show_near none quantity s = s
  show_near (some t) quantity s =
      if is_near (some t) && not (s.last_quantity == quantity) && ltb 0 s.last_quantity
      then show (near_note t) s
      else s

module _ {F : Type 0} ⦃n : Number F⦄ where
  show_unlocked : Option (SummaryTier F) → WatchState F → WatchState F
  unfolding unlocked_note show
  show_unlocked tier s =
      if changed (tier_id_of tier) s.last_tier_id then show (unlocked_note tier) s else s

  -- The body of the effect.
  pub effect : Option (CartSummary F) → WatchState F → WatchState F
  unfolding show_unlocked show_near
  effect none s = s
  effect (some c) s = record (show_near c.next_tier c.total_quantity (show_unlocked c.tier s)) {
    last_tier_id = tier_id_of c.tier;
    last_quantity = c.total_quantity;
  }
