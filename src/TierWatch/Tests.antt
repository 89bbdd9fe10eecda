-- ===== src/TierWatch/Tests.antt =====
-- A run of front/src/hooks/useCartTierNotifications.ts: the quantity
-- falls from a tier with the minimum 6 to one with the minimum 1.
use go_moda_mayor.Cents.{cents}
use go_moda_mayor.Prelude.{ℕ, ◌≡◌, refl, true, none, some, [], ◌∷◌}
use go_moda_mayor.Summary.{SummaryTier, CartSummary}
use go_moda_mayor.TierWatch.{WatchState, effect, unlocked_note}

abbrev basic : SummaryTier ℕ
basic = record {
  id = 1;
  name = "t";
  display_name = "T";
  formula_type = "multiplier";
  multiplier = 2;
  percentage = 0;
  flat_amount = 7;
  min_quantity = 1;
  order_index = 1;
  active = true;
  is_default = true;
  show_in_public = true;
  color_code = "";
}

abbrev lowered : CartSummary ℕ
lowered = record {
  cart_id = 1;
  total_quantity = 5;
  subtotal = 900;
  items = [];
  tier = some basic;
  next_tier = none;
  all_tiers = [];
}

abbrev watched : WatchState ℕ
watched = record { last_tier_id = some 2; last_quantity = 6; helper = true; shown = [] }

fall_announced : (effect (some lowered) watched).shown ≡ unlocked_note (some basic) ∷ []
unfolding effect
fall_announced = refl
