-- ===== src/SellerCarts/Price.antt =====
-- The prices of front/src/app/vendedora/carritos/page.tsx against those of
-- front/src/utils/priceCalculations.ts.
use go_moda_mayor.Prelude.{
  ℕ, Bool, true, false, if◌then◌else◌, ◌≡◌, refl, ◌⊎◌, inl, inr, some, List, sym,
}
use go_moda_mayor.Pricing.{
  Number, PriceTier, FormulaType, multiplier, percentage_markup, flat_amount, unknown,
  get_applicable_tier, calculate_price_for_tier,
}
use go_moda_mayor.Pricing.Select.{is_reached, find-active_tiers, get_applicable_tier-eq-lowest}
use go_moda_mayor.Pricing.Rows.{calculate_price_for_tier-multiplier}
use go_moda_mayor.SellerCarts.{applicable_tier, calculate_price_with_tier, price_of, price_by}

-- For every list of tiers and quantity, the seller's page and `getApplicableTier` choose the same tier.
pub applicable_tier-get_applicable_tier :
    {F : Type 0} (tiers : List (PriceTier F)) (total : ℕ)
    → applicable_tier tiers total ≡ get_applicable_tier tiers total
unfolding applicable_tier
applicable_tier-get_applicable_tier tiers total =
    rw (find-active_tiers (is_reached total) tiers, find-active_tiers (λ t. t.is_default) tiers)
      (sym (get_applicable_tier-eq-lowest tiers total))

abbrev pub is_multiplier : FormulaType → Bool
is_multiplier multiplier = true
is_multiplier percentage_markup = false
is_multiplier flat_amount = false
is_multiplier (unknown s) = false

module _ {F : Type 0} ⦃n : Number F⦄ (one markup : F) where
  -- With a tier for the quantity that has one of the three types of formula, the price of the seller's
  -- page is the tier's if the type is a multiplier, and two and a half times the cost for the other
  -- two, whatever the percentage or the amount.
  pub calculate_price_with_tier_lem :
      (tiers : List (PriceTier F)) (cost : F) (total : ℕ) (t : PriceTier F)
      → get_applicable_tier tiers total ≡ some t
      → (t.formula_type ≡ multiplier)
        ⊎ (t.formula_type ≡ percentage_markup)
        ⊎ (t.formula_type ≡ flat_amount)
      → calculate_price_with_tier one markup tiers cost total ≡ (
          if is_multiplier t.formula_type
          then calculate_price_for_tier cost t
          else n.mul cost markup)
  unfolding calculate_price_with_tier price_of price_by
  calculate_price_with_tier_lem tiers cost total t chosen formula =
      rw (applicable_tier-get_applicable_tier tiers total, chosen)
        (elim formula [
          | inl e ↦ rw (calculate_price_for_tier-multiplier cost t e, e) refl
          | inr (inl e) ↦ rw e refl
          | inr (inr e) ↦ rw e refl
        ])
