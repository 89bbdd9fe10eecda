-- ===== src/SellerCarts/Hint.antt =====
-- The indicator of tiers in front/src/app/vendedora/carritos/page.tsx: the tier that a cart has reached,
-- and the next one.
pub mod Next
use go_moda_mayor.Prelude.{
  ℕ, ◌+◌, ◌-◌, Bool, Option, none, some, List, [], ◌∷◌, ltb, leb, ◌==◌, if◌then◌else◌, find, keep,
  reduce, or_else,
}
use go_moda_mayor.Prelude.Sort.{sort_by}
use go_moda_mayor.Pricing.{PriceTier}
use go_moda_mayor.SellerCarts.Items.{CartItem}

unfoldable pub total_quantity : List CartItem → ℕ
total_quantity items = reduce (λ sum it. sum + it.quantity) 0 items

-- The tier that is reached, the next one, and the items that are missing to reach it.
pub record TierHint (F : Type 0) : Type 0 where
  pub current_tier : PriceTier F
  pub next_tier : Option (PriceTier F × ℕ)

module _ {F : Type 0} where
  -- The comparison `b.min_quantity - a.min_quantity`.
  abbrev pub by_minimum : PriceTier F → PriceTier F → Bool
  by_minimum a b = leb b.min_quantity a.min_quantity

  abbrev pub last_of : PriceTier F → List (PriceTier F) → PriceTier F
  last_of t [] = t
  last_of t (u ∷ us) = last_of u us

  abbrev missing : ℕ → Option (PriceTier F) → Option (PriceTier F × ℕ)
  missing total none = none
  missing total (some t) = some (t, t.min_quantity - total)

  hint_of : ℕ → List (PriceTier F) → Option (TierHint F)
  hint_of total [] = none
  hint_of total (t ∷ ts) = some (record {
    current_tier = chosen (find (λ u. leb u.min_quantity total) (t ∷ ts));
    next_tier = missing total (find (λ u. ltb total u.min_quantity) (t ∷ ts));
  })
    where
      chosen : Option (PriceTier F) → PriceTier F
      chosen none = last_of t ts
      chosen (some u) = u

  unfoldable pub tier_hint : List (PriceTier F) → List CartItem → Option (TierHint F)
  unfolding hint_of
  tier_hint tiers items =
      let total = total_quantity items in
      if total == 0 then none else hint_of total (sort_by by_minimum (keep (λ t. t.active) tiers))
