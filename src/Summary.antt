-- ===== src/Summary.antt =====
-- front/src/hooks/useCartSummary.ts: the summary of the cart, and the notifications on a change of
-- price tier between two loads.
pub mod Throttle
pub mod Direction
pub mod Outcome
mod Tests
use go_moda_mayor.Prelude.{
  ℕ, ◌-◌, Bool, true, false, not, ◌&&◌, ◌||◌, Option, none, some, List, [], ◌∷◌, ◌++◌, String, ltb,
  leb, ◌==◌, if◌then◌else◌, truthy, concat,
}
use go_moda_mayor.Prelude.Decimal.{show_ℕ}
use go_moda_mayor.Net.{Reply, failed, refused, garbled, accepted}
use go_moda_mayor.Pricing.{Number}
use go_moda_mayor.PriceQueue.{Notification, tier_unlocked, near_tier, tier_lost}

pub record SummaryTier (F : Type 0) : Type 0 where
  pub id : ℕ
  pub name : String
  pub display_name : String
  pub formula_type : String
  pub multiplier : F
  pub percentage : F
  pub flat_amount : F
  pub min_quantity : ℕ
  pub order_index : ℕ
  pub active : Bool
  pub is_default : Bool
  pub show_in_public : Bool
  pub color_code : String

pub record NextTier : Type 0 where
  pub display_name : String
  pub min_quantity : ℕ
  pub quantity_to_unlock : ℕ

pub record CartItemSummary (F : Type 0) : Type 0 where
  pub cart_item_id : ℕ
  pub product_id : ℕ
  pub product_name : String
  pub variant_id : ℕ
  pub variant_name : String
  pub quantity : ℕ
  pub cost_price : F
  pub unit_price : F
  pub subtotal : F
  pub image_url : String

pub record CartSummary (F : Type 0) : Type 0 where
  pub cart_id : ℕ
  pub total_quantity : ℕ
  pub subtotal : F
  pub items : List (CartItemSummary F)
  pub tier : Option (SummaryTier F)
  pub next_tier : Option NextTier
  pub all_tiers : List (SummaryTier F)

-- The `type` that the reference to the last notification keeps.
pub data AlertType : Type 0 where
  unlocked lost near near_loss : AlertType

abbrev pub same_type : AlertType → AlertType → Bool
same_type unlocked unlocked = true
same_type lost lost = true
same_type near near = true
same_type near_loss near_loss = true
same_type _ _ = false

pub record LastNotification : Type 0 where
  pub type : AlertType
  pub tier_id : Option ℕ
  pub timestamp : ℕ

abbrev pub same_id : Option ℕ → Option ℕ → Bool
same_id none none = true
same_id (some a) (some b) = a == b
same_id _ _ = false

-- `id || null`
abbrev pub id_or_null : Option ℕ → Option ℕ
id_or_null none = none
id_or_null (some n) = if n == 0 then none else some n

pub should_show : Option LastNotification → ℕ → AlertType → Option ℕ → Bool
should_show none now type tier = true
should_show (some last) now type tier =
    not (same_type last.type type)
    || not (same_id last.tier_id tier)
    || ltb 3000 (now - last.timestamp)

-- What is to be shown, and the type and tier by which repetitions are told.
pub record Alert (F : Type 0) : Type 0 where
  pub shown : Notification F
  pub type : AlertType
  pub tier_id : Option ℕ

abbrev pub is_near : Option NextTier → Bool
is_near none = false
is_near (some n) = leb n.quantity_to_unlock 3 && ltb 0 n.quantity_to_unlock

module _ {F : Type 0} where
  -- `currentTier && prevTier && ids differ && the minimum rises`
  abbrev pub is_up : Option (SummaryTier F) → Option (SummaryTier F) → Bool
  is_up (some c) (some p) = not (c.id == p.id) && ltb p.min_quantity c.min_quantity
  is_up _ _ = false

  abbrev pub is_down : Option (SummaryTier F) → Option (SummaryTier F) → Bool
  is_down (some c) (some p) = not (c.id == p.id) && ltb c.min_quantity p.min_quantity
  is_down _ _ = false

  -- The quantity has just come down to the minimum of the same tier.
  abbrev pub is_edge : Option (SummaryTier F) → Option (SummaryTier F) → ℕ → ℕ → Bool
  is_edge (some c) (some p) before now = c.id == p.id && now == c.min_quantity && ltb now before
  is_edge _ _ before now = false

  lost_alert : Option (SummaryTier F) → Option (Alert F)
  lost_alert none = none
  lost_alert (some c) = some (record {
    shown = record {
      type = tier_lost;
      message = concat ("Has vuelto a " ∷ c.display_name ∷ ". Los precios han cambiado." ∷ []);
      savings = none;
      items_needed = none;
      tier_name = some c.display_name;
    };
    type = lost;
    tier_id = some c.id;
  })

  edge_alert : Option (SummaryTier F) → Option (Alert F)
  edge_alert none = none
  edge_alert (some c) = some (record {
    shown = record {
      type = near_tier;
      message =
          concat ("¡Cuidado! Si quitas una prenda más, perderás el " ∷ c.display_name ∷ "." ∷ []);
      savings = none;
      items_needed = none;
      tier_name = some c.display_name;
    };
    type = near_loss;
    tier_id = some c.id;
  })

  abbrev pub tier_id_of : Option (SummaryTier F) → Option ℕ
  tier_id_of none = none
  tier_id_of (some c) = id_or_null (some c.id)

  near_alert : Option NextTier → Option (SummaryTier F) → Option (Alert F)
  near_alert none tier = none
  near_alert (some n) tier = some (record {
    shown = record {
      type = near_tier;
      message = concat (
          "¡Agregando "
          ∷ show_ℕ n.quantity_to_unlock
          ∷ " "
          ∷ (if n.quantity_to_unlock == 1 then "prenda" else "prendas")
          ∷ " más obtendrás "
          ∷ n.display_name
          ∷ "!"
          ∷ []);
      savings = none;
      items_needed = some n.quantity_to_unlock;
      tier_name = some n.display_name;
    };
    type = near;
    tier_id = tier_id_of tier;
  })

module _ {F : Type 0} ⦃n : Number F⦄ where
  open n use {sub, is_positive}

  unlocked_alert : F → F → Option (SummaryTier F) → Option (Alert F)
  unlocked_alert before now none = none
  unlocked_alert before now (some c) = some (record {
    shown = record {
      type = tier_unlocked;
      message =
          concat
            ("¡Ahora tienes " ∷ c.display_name ∷ "! Todos tus productos tienen mejor precio." ∷ []);
      savings = if is_positive (sub before now) then some (sub before now) else none;
      items_needed = none;
      tier_name = some c.display_name;
    };
    type = unlocked;
    tier_id = some c.id;
  })

  -- The four cases, in their order, before repetitions are held back.
  pub candidate : CartSummary F → CartSummary F → Option (Alert F)
  unfolding unlocked_alert lost_alert near_alert edge_alert
  candidate prev current =
      if is_up current.tier prev.tier
      then unlocked_alert prev.subtotal current.subtotal current.tier
      else if is_down current.tier prev.tier
      then lost_alert current.tier
      else if is_near current.next_tier
      then if ltb prev.total_quantity current.total_quantity
        then near_alert current.next_tier current.tier
        else none
      else if is_edge current.tier prev.tier prev.total_quantity current.total_quantity
      then edge_alert current.tier
      else none

-- The state of an instance of the hook. `enabled` is its parameter, `helper` tells whether
-- `window.showPriceNotification` is there, and `shown` holds what it was given, the oldest first.
pub record SummaryState (F : Type 0) : Type 0 where
  pub enabled : Bool
  pub helper : Bool
  pub token : Option String
  pub summary : Option (CartSummary F)
  pub loading : Bool
  pub error : Option String
  pub previous : Option (CartSummary F)
  pub last : Option LastNotification
  pub shown : List (Notification F)

module _ {F : Type 0} where
  -- `showNotification(...)` and the new value of the reference, unless this is a repetition.
  pub notify : ℕ → Option (Alert F) → SummaryState F → SummaryState F
  notify now none s = s
  notify now (some a) s =
      if should_show s.last now a.type a.tier_id
      then record s {
        shown = s.shown ++ a.shown ∷ [];
        last = some (record { type = a.type; tier_id = a.tier_id; timestamp = now });
      }
      else s

module _ {F : Type 0} ⦃n : Number F⦄ where
  compare_with : ℕ → Option (CartSummary F) → CartSummary F → SummaryState F → SummaryState F
  compare_with now none current s = s
  compare_with now (some prev) current s =
      if s.enabled && s.helper then notify now (candidate prev current) s else s

  load : ℕ → Reply (CartSummary F) → SummaryState F → SummaryState F
  unfolding compare_with
  load now (failed m) s = record s { error = some m; loading = false }
  load now (refused status error) s =
      if status == 401
      then record s { summary = none; loading = false }
      else record s { error = some "Error al cargar el resumen del carrito"; loading = false }
  load now (garbled m) s = record s { error = some m; loading = false }
  load now (accepted current) s = record (compare_with now s.previous current s) {
    previous = some current;
    summary = some current;
    loading = false;
  }

  -- `now` is `Date.now()` at the time of the answer.
  pub fetch_summary : ℕ → Reply (CartSummary F) → SummaryState F → SummaryState F
  unfolding load
  fetch_summary now reply s =
      if truthy s.token
      then load now reply (record s { loading = true; error = none })
      else record s { summary = none; loading = false; error = none }
