-- ===== src/Pricing/Tests.antt =====
-- Runs of front/src/utils/priceCalculations.ts, and its theorems at concrete inputs.
use go_moda_mayor.Cents.{cents}
use go_moda_mayor.Prelude.{ℕ, ◌≡◌, refl, Bool, true, false, some, List, [], ◌∷◌, or_else, ◌&&◌}
use go_moda_mayor.Pricing.{
  PriceTier, FormulaType, get_applicable_tier, active_tiers, sort_by_order, insert_by_order, scan,
  calculate_price_for_quantity, calculate_price_for_tier,
}
use go_moda_mayor.Pricing.Sort.{lowest}
use go_moda_mayor.Pricing.Select.{is_reached, get_applicable_tier-eq-lowest}

abbrev a_tier : ℕ → FormulaType → ℕ → ℕ → Bool → Bool → PriceTier ℕ
a_tier id formula minimum order active default = record {
  id = id;
  name = "t";
  display_name = "T";
  formula_type = formula;
  multiplier = 2;
  percentage = 50;
  flat_amount = 7;
  min_quantity = minimum;
  order_index = order;
  active = active;
  description = "";
  is_default = default;
  show_in_public = true;
  color_code = "";
}

abbrev retail : PriceTier ℕ
retail = a_tier 1 FormulaType.multiplier 1 3 true true

abbrev wholesale : PriceTier ℕ
wholesale = a_tier 2 FormulaType.percentage_markup 6 1 true false

abbrev retired : PriceTier ℕ
retired = a_tier 3 FormulaType.flat_amount 1 0 false false

abbrev tiers : List (PriceTier ℕ)
tiers = retail ∷ retired ∷ wholesale ∷ []

few : get_applicable_tier tiers 5 ≡ some retail
unfolding get_applicable_tier scan active_tiers sort_by_order insert_by_order
few = refl

many : (calculate_price_for_quantity 200 6 tiers).price ≡ 300
unfolding get_applicable_tier scan active_tiers sort_by_order insert_by_order
    calculate_price_for_quantity calculate_price_for_tier
many = refl

get_applicable_tier-eq-lowest_example :
    get_applicable_tier tiers 6
    ≡ or_else
        (lowest (λ t. t.active && is_reached 6 t) tiers)
        (lowest (λ t. t.active && t.is_default) tiers)
get_applicable_tier-eq-lowest_example = get_applicable_tier-eq-lowest tiers 6
