-- ===== src/CartModal.antt =====
-- front/src/components/CartModal.tsx: the prices that the cart window shows of each item.
pub mod Tiers
pub mod Panel
pub mod Totals
mod Tests
pub mod Buttons
pub mod Seller
use go_moda_mayor.Prelude.{
  ℕ, Bool, true, false, not, ◌&&◌, Option, none, some, List, [], ◌∷◌, map, String, ltb, leb, ◌==◌,
  if◌then◌else◌, find, keep, str_eq, get_or, or_else,
}
use go_moda_mayor.Prelude.Int.{ℤ}
use go_moda_mayor.Prelude.Sort.{first, sort_by}
use go_moda_mayor.Pricing.{Number}
use go_moda_mayor.Summary.{CartSummary, CartItemSummary, SummaryTier}

-- What the language gives of numbers besides their arithmetic: no law of it is used. `cent` is 0.01.
pub record Money (F : Type 0) : Type 0 where
  pub of_ℕ : ℕ → F
  pub of_ℤ : ℤ → F
  pub less : F → F → Bool
  pub abs : F → F
  pub cent : F

-- An item's product, with the properties that the server spells in two ways. A discount value is
-- `none` if it is no number.
pub record ModalProduct (F : Type 0) : Type 0 where
  pub wholesale_price : Option F
  pub upper_wholesale_price : Option F
  pub discount_type : Option String
  pub upper_discount_type : Option String
  pub discount_value : Option F
  pub upper_discount_value : Option F

pub record ModalItem (F : Type 0) : Type 0 where
  pub id : ℕ
  pub product_id : ℕ
  pub variant_id : ℕ
  pub quantity : Option ℕ
  pub product_price : Option F
  pub product : Option (ModalProduct F)
  pub requires_stock_check : Bool
  pub stock_confirmed : Bool

-- An item with its prices.
pub record PricedItem (F : Type 0) : Type 0 where
  pub item : ModalItem F
  pub qty : ℕ
  pub original_unit : F
  pub unit_price : F
  pub line_original : F
  pub line_final : F
  pub line_discount : F
  pub has_tier_discount : Bool

-- `item.requires_stock_check && !item.stock_confirmed`
abbrev pub is_pending : {F : Type 0} → ModalItem F → Bool
is_pending i = i.requires_stock_check && not i.stock_confirmed

module _ {F : Type 0} where
  abbrev pub by_order : SummaryTier F → SummaryTier F → Bool
  by_order a b = leb a.order_index b.order_index

  -- The comparison `b.min_quantity - a.min_quantity`.
  abbrev pub by_minimum : SummaryTier F → SummaryTier F → Bool
  by_minimum a b = leb b.min_quantity a.min_quantity

  abbrev pub is_below : SummaryTier F → SummaryTier F → Bool
  is_below current t = ltb t.min_quantity current.min_quantity

  pub previous_tier : SummaryTier F → List (SummaryTier F) → Option (SummaryTier F)
  previous_tier current tiers =
      let all_tiers = sort_by by_order (keep (λ t. t.active) tiers) in
      first (sort_by by_minimum (keep (is_below current) all_tiers))

module _ {F : Type 0} ⦃n : Number F⦄ ⦃m : Money F⦄ where
  open n use {add, sub, mul, div, hundred}
  open m use {of_ℕ, less, abs, cent}

  pub previous_tier_price : F → SummaryTier F → F
  previous_tier_price cost t =
      if str_eq t.formula_type "multiplier"
      then mul cost t.multiplier
      else if str_eq t.formula_type "percentage_markup"
      then add cost (div (mul cost t.percentage) hundred)
      else if str_eq t.formula_type "flat_amount"
      then add cost t.flat_amount
      else mul cost (of_ℕ 2)

  -- The unit price to compare with, and whether it differs from the present one.
  compared : CartItemSummary F → Option (SummaryTier F) → F × Bool
  unfolding previous_tier_price
  compared si none = (si.unit_price, false)
  compared si (some t) =
      let price = previous_tier_price si.cost_price t in
      (price, less cent (abs (sub price si.unit_price)))

  original_price : Option (SummaryTier F) → List (SummaryTier F) → CartItemSummary F → F × Bool
  unfolding compared
  original_price none tiers si = (si.unit_price, false)
  original_price (some current) tiers si = compared si (previous_tier current tiers)

  -- An item that the summary has.
  from_summary : F × Bool → CartItemSummary F → ModalItem F → PricedItem F
  from_summary (original, differs) si i =
      let qty = get_or i.quantity 0 in
      let line = mul original (of_ℕ qty) in
      record {
        item = i;
        qty = qty;
        original_unit = original;
        unit_price = si.unit_price;
        line_original = line;
        line_final = si.subtotal;
        line_discount = sub line si.subtotal;
        has_tier_discount = differs;
      }

  abbrev own_price : Option (ModalProduct F) → Option F
  own_price none = none
  own_price (some p) = or_else p.wholesale_price p.upper_wholesale_price

  abbrev own_discount : Option (ModalProduct F) → Option String × Option F
  own_discount none = (none, none)
  own_discount (some p) = (
    or_else p.discount_type p.upper_discount_type,
    or_else p.discount_value p.upper_discount_value,
  )

  discounted : F → Option String × Option F → F
  discounted original (some type, some value) =
      if str_eq type "percent"
      then mul original (sub (of_ℕ 1) (div value hundred))
      else if str_eq type "fixed"
      then sub original value
      else original
  discounted original (none, some value) = original
  discounted original (type, none) = original

  -- An item that it does not have, or without a summary.
  from_product : ModalItem F → PricedItem F
  unfolding discounted
  from_product i =
      let qty = get_or i.quantity 0 in
      let original = get_or (or_else i.product_price (own_price i.product)) (of_ℕ 0) in
      let unit = discounted original (own_discount i.product) in
      let unit_price = if less unit (of_ℕ 0) then of_ℕ 0 else unit in
      let line_original = mul original (of_ℕ qty) in
      let line_final = mul unit_price (of_ℕ qty) in
      record {
        item = i;
        qty = qty;
        original_unit = original;
        unit_price = unit_price;
        line_original = line_original;
        line_final = line_final;
        line_discount = sub line_original line_final;
        has_tier_discount = false;
      }

  -- `summaryItems.length > 0 && !isGuest`, and the item's row of the summary.
  abbrev pub summary_item : Bool → Option (CartSummary F) → ModalItem F → Option (CartItemSummary F)
  summary_item true summary i = none
  summary_item false none i = none
  summary_item false (some s) i = find (λ si. si.cart_item_id == i.id) s.items

  priced : Option (CartSummary F) → Option (CartItemSummary F) → ModalItem F → PricedItem F
  unfolding from_product from_summary original_price
  priced (some s) (some si) i = from_summary (original_price s.tier s.all_tiers si) si i
  priced none (some si) i = from_product i
  priced s none i = from_product i

  pub price_item : Bool → Option (CartSummary F) → ModalItem F → PricedItem F
  unfolding priced
  price_item is_guest summary i = priced summary (summary_item is_guest summary i) i

  pub items_with_pricing : Bool → Option (CartSummary F) → List (ModalItem F) → List (PricedItem F)
  items_with_pricing is_guest summary items = map (price_item is_guest summary) items
