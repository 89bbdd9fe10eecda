-- ===== src/Pricing.antt =====
-- front/src/utils/priceCalculations.ts: price tiers, the tier that applies to a quantity, and the
-- prices of every tier. A price is a JavaScript number, whose arithmetic is the instance `Number`.
pub mod Sort
pub mod Select
pub mod Rows
mod Tests
use go_moda_mayor.Prelude.{
  get_or, false, ℕ, Bool, true, Option, none, some, List, [], ◌∷◌, map, String, ltb, leb,
  if◌then◌else◌, keep, find, concat,
}

-- The arithmetic that the language gives: no law of it is used.
pub record Number (F : Type 0) : Type 0 where
  pub add : F → F → F
  pub sub : F → F → F
  pub mul : F → F → F
  pub div : F → F → F
  pub hundred : F
  pub is_positive : F → Bool
  pub is_truthy : F → Bool
  pub show_number : F → String

pub data FormulaType : Type 0 where
  multiplier percentage_markup flat_amount : FormulaType
  -- Any other text that the server may send.
  unknown : String → FormulaType

pub record PriceTier (F : Type 0) : Type 0 where
  pub id : ℕ
  pub name : String
  pub display_name : String
  pub formula_type : FormulaType
  pub multiplier : F
  pub percentage : F
  pub flat_amount : F
  pub min_quantity : ℕ
  pub order_index : ℕ
  pub active : Bool
  pub description : String
  pub is_default : Bool
  pub show_in_public : Bool
  pub color_code : String

-- A member of `allTiers`.
pub record TierRow (F : Type 0) : Type 0 where
  pub tier : PriceTier F
  pub price : F
  pub applies : Bool

pub record CalculatedPriceInfo (F : Type 0) : Type 0 where
  pub price : F
  pub tier : Option (PriceTier F)
  pub all_tiers : List (TierRow F)

module _ {F : Type 0} where
  -- `[...].sort((a, b) => a.order_index - b.order_index)`: the language's sort is stable.
  pub insert_by_order : PriceTier F → List (PriceTier F) → List (PriceTier F)
  insert_by_order t [] = t ∷ []
  insert_by_order t (u ∷ us) =
      if leb t.order_index u.order_index then t ∷ u ∷ us else u ∷ insert_by_order t us

  pub sort_by_order : List (PriceTier F) → List (PriceTier F)
  sort_by_order [] = []
  sort_by_order (t ∷ ts) = insert_by_order t (sort_by_order ts)

  -- `tiers.filter(t => t.active).sort(...)`
  pub active_tiers : List (PriceTier F) → List (PriceTier F)
  active_tiers tiers = sort_by_order (keep (λ t. t.active) tiers)

  -- `!applicableTier || tier.order_index < applicableTier.order_index`
  abbrev pub beats : PriceTier F → Option (PriceTier F) → Bool
  beats t none = true
  beats t (some u) = ltb t.order_index u.order_index

  -- The loop of `getApplicableTier`.
  pub scan : ℕ → Option (PriceTier F) → List (PriceTier F) → Option (PriceTier F)
  scan quantity best [] = best
  scan quantity best (t ∷ ts) =
      scan quantity
        (if leb t.min_quantity quantity then if beats t best then some t else best else best) ts

  abbrev pub or_default : Option (PriceTier F) → List (PriceTier F) → Option (PriceTier F)
  or_default none ts = find (λ t. t.is_default) ts
  or_default (some t) ts = some t

  -- `!tiers` has no counterpart: the parameter's type has no null.
  pub get_applicable_tier : List (PriceTier F) → ℕ → Option (PriceTier F)
  get_applicable_tier [] quantity = none
  get_applicable_tier (t ∷ ts) quantity =
      let sorted = active_tiers (t ∷ ts) in or_default (scan quantity none sorted) sorted

module _ {F : Type 0} ⦃n : Number F⦄ where
  open n use {add, mul, div, hundred, show_number}

  price_by : FormulaType → F → PriceTier F → F
  price_by multiplier cost t = mul cost t.multiplier
  price_by percentage_markup cost t = add cost (div (mul cost t.percentage) hundred)
  price_by flat_amount cost t = add cost t.flat_amount
  price_by (unknown _) cost t = cost

  pub calculate_price_for_tier : F → PriceTier F → F
  unfolding price_by
  calculate_price_for_tier cost t = price_by t.formula_type cost t

  abbrev pub row : F → ℕ → PriceTier F → TierRow F
  row cost quantity t = record {
    tier = t;
    price = calculate_price_for_tier cost t;
    applies = leb t.min_quantity quantity;
  }

  abbrev pub price_of : F → Option (PriceTier F) → F
  price_of cost none = cost
  price_of cost (some t) = calculate_price_for_tier cost t

  pub calculate_price_for_quantity : F → ℕ → List (PriceTier F) → CalculatedPriceInfo F
  calculate_price_for_quantity cost quantity tiers =
      let tier = get_applicable_tier tiers quantity in
      record {
        price = price_of cost tier;
        tier = tier;
        all_tiers = map (row cost quantity) (active_tiers tiers);
      }

  describe : FormulaType → PriceTier F → String
  describe multiplier t = concat ("Costo × " ∷ show_number t.multiplier ∷ [])
  describe percentage_markup t = concat ("Costo + " ∷ show_number t.percentage ∷ "%" ∷ [])
  describe flat_amount t = concat ("Costo + $" ∷ show_number t.flat_amount ∷ [])
  describe (unknown _) t = "Fórmula desconocida"

  pub get_formula_description : PriceTier F → String
  unfolding describe
  get_formula_description t = describe t.formula_type t

-- A tier as the backend's endpoint sends it: with the price that it has calculated, and with a mark on
-- the tier that applies.
pub record BackendTier (F : Type 0) : Type 0 where
  pub tier : PriceTier F
  pub calculated_price : F
  pub applies_now : Option Bool

-- What is made of it: `tier` is the whole of what was sent.
pub record BackendRow (F : Type 0) : Type 0 where
  pub tier : BackendTier F
  pub price : F
  pub applies : Option Bool

pub record BackendPrices (F : Type 0) : Type 0 where
  pub price : F
  pub tier : Option (BackendTier F)
  pub all_tiers : List (BackendRow F)

-- What the backend's endpoint answers: no connection or no JSON, JSON without `tiers`, or its tiers.
pub data PricesReply (F : Type 0) : Type 0 where
  failed without_tiers : PricesReply F
  rows : List (BackendTier F) → PricesReply F

module _ {F : Type 0} where
  abbrev price_of_row : F → Option (BackendTier F) → F
  price_of_row cost none = cost
  price_of_row cost (some t) = t.calculated_price

  abbrev pub backend_row : BackendTier F → BackendRow F
  backend_row t = record { tier = t; price = t.calculated_price; applies = t.applies_now }

  pub calculate_prices_from_backend : F → PricesReply F → Option (BackendPrices F)
  calculate_prices_from_backend cost failed = none
  calculate_prices_from_backend cost without_tiers = none
  calculate_prices_from_backend cost (rows ts) =
      let found = find (λ t. get_or t.applies_now false) ts in
      some
        (record { price = price_of_row cost found; tier = found; all_tiers = map backend_row ts })

-- The answer to `GET /settings/price-tiers`: no connection or no JSON, or the `tiers` it holds.
pub data TiersReply (F : Type 0) : Type 0 where
  failed : TiersReply F
  tiers : Option (List (PriceTier F)) → TiersReply F

pub fetch_price_tiers : {F : Type 0} → TiersReply F → List (PriceTier F)
fetch_price_tiers failed = []
fetch_price_tiers (tiers none) = []
fetch_price_tiers (tiers (some ts)) = ts
