-- ===== src/Summary/Tests.antt =====
-- Runs of front/src/hooks/useCartSummary.ts, and its theorems at concrete inputs.
use go_moda_mayor.Cents.{cents}
use go_moda_mayor.Prelude.{ℕ, ◌≡◌, refl, true, false, none, some, [], ◌∷◌, ◌⊎◌, map}
use go_moda_mayor.Net.{accepted}
use go_moda_mayor.PriceQueue.{tier_unlocked}
use go_moda_mayor.Summary.{
  SummaryTier, CartSummary, SummaryState, candidate, fetch_summary, notify, should_show,
}
use go_moda_mayor.Summary.Throttle.{IsQuiet, IsAlerted, fetch_summary-alerts}

abbrev a_tier : ℕ → ℕ → SummaryTier ℕ
a_tier id minimum = record {
  id = id;
  name = "t";
  display_name = "T";
  formula_type = "multiplier";
  multiplier = 2;
  percentage = 50;
  flat_amount = 7;
  min_quantity = minimum;
  order_index = 1;
  active = true;
  is_default = false;
  show_in_public = true;
  color_code = "";
}

abbrev a_summary : ℕ → ℕ → ℕ → CartSummary ℕ
a_summary id minimum quantity = record {
  cart_id = 1;
  total_quantity = quantity;
  subtotal = 900;
  items = [];
  tier = some (a_tier id minimum);
  next_tier = none;
  all_tiers = [];
}

abbrev loaded : SummaryState ℕ
loaded = record {
  enabled = true;
  helper = true;
  token = some "t";
  summary = some (a_summary 1 1 5);
  loading = false;
  error = none;
  previous = some (a_summary 1 1 5);
  last = none;
  shown = [];
}

announced :
    map (λ m. m.type) (fetch_summary 4000 (accepted (a_summary 2 6 6)) loaded).shown
    ≡ tier_unlocked ∷ []
unfolding fetch_summary candidate notify should_show
announced = refl

fetch_summary-alerts_example :
    let t = fetch_summary 4000 (accepted (a_summary 2 6 6)) loaded in
    IsQuiet loaded t ⊎ IsAlerted 4000 (accepted (a_summary 2 6 6)) loaded t
fetch_summary-alerts_example = fetch_summary-alerts 4000 (accepted (a_summary 2 6 6)) loaded
