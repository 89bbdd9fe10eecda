-- ===== src/Pricing/Rows.antt =====
-- `calculatePriceForQuantity` of front/src/utils/priceCalculations.ts: the rows of all tiers.
use mathlib.Core.List.{Perm}
use go_moda_mayor.Prelude.{ℕ, ◌≡◌, refl, List, [], ◌∷◌, keep, map}
use go_moda_mayor.Pricing.{
  Number, PriceTier, multiplier, price_by, calculate_price_for_tier, active_tiers, row,
  calculate_price_for_quantity, sort_by_order,
}
use go_moda_mayor.Pricing.Sort.{IsSortedFrom, sort_by_order-IsSortedFrom, sort_by_order-perm}

module _ {F : Type 0} ⦃n : Number F⦄ where
  map-row-tier :
      (cost : F) (quantity : ℕ) (ts : List (PriceTier F))
      → map (λ r. r.tier) (map (row cost quantity) ts) ≡ ts
  map-row-tier cost quantity [] = refl
  map-row-tier cost quantity (t ∷ ts) = rw (map-row-tier cost quantity ts)

  -- The rows show each active tier once, in increasing `order_index`, and nothing else.
  pub all_tiers_lem :
      (cost : F) (quantity : ℕ) (tiers : List (PriceTier F))
      → let shown =
          map (λ r. r.tier) (calculate_price_for_quantity cost quantity tiers).all_tiers in
        IsSortedFrom 0 shown × Perm shown (keep (λ t. t.active) tiers)
  unfolding calculate_price_for_quantity active_tiers
  all_tiers_lem cost quantity tiers =
      let kept = keep (λ t. t.active) tiers in
      rw (map-row-tier cost quantity (sort_by_order kept))
        (sort_by_order-IsSortedFrom kept, sort_by_order-perm kept)

-- The price of a tier with a multiplier.
pub calculate_price_for_tier-multiplier :
    {F : Type 0} ⦃n : Number F⦄ (cost : F) (t : PriceTier F)
    → t.formula_type ≡ multiplier
    → calculate_price_for_tier cost t ≡ n.mul cost t.multiplier
unfolding calculate_price_for_tier price_by
calculate_price_for_tier-multiplier cost t e = rw e refl
