-- ===== src/CartModal/Totals.antt =====
-- The quantities and sums that front/src/components/CartModal.tsx shows below the items.
pub mod Counted
use go_moda_mayor.Prelude.{
  ℕ, ◌+◌, ◌≡◌, refl, ◌∙◌, ap, Bool, true, false, not, ◌&&◌, ◌||◌, Option, none, some, List, [], ◌∷◌,
  arith, ◌==◌, if◌then◌else◌, find, keep, reduce, Bool-cases, inl, inr,
}
use go_moda_mayor.Prelude.Int.{ℤ, pos, ◌+ℤ◌}
use go_moda_mayor.GuestCart.Items.{GuestCartItem, Metadata, Property, absent, undef, value}
use go_moda_mayor.Pricing.{Number}
use go_moda_mayor.StockCheck.{StockIssue}
use go_moda_mayor.CartModal.{ModalItem, PricedItem, Money, is_pending}

abbrev stock_of : Option StockIssue → Option ℕ
stock_of none = none
stock_of (some i) = some i.available_stock

-- `availableStock !== null && availableStock === 0`
abbrev is_zero : Option ℕ → Bool
is_zero none = false
is_zero (some n) = n == 0

module _ {F : Type 0} where
  abbrev pub pending_items : List (PricedItem F) → List (PricedItem F)
  pending_items ps = keep (λ p. is_pending p.item) ps

  abbrev pub visible_for_pricing : List (PricedItem F) → List (PricedItem F)
  visible_for_pricing ps = keep (λ p. not (is_pending p.item)) ps

  pub pending_quantity : List (PricedItem F) → ℕ
  pending_quantity ps = reduce (λ acc p. acc + p.qty) 0 (pending_items ps)

  module _ (issues : List StockIssue) where
    pub get_available_stock : ModalItem F → Option ℕ
    get_available_stock i =
        stock_of (find (λ s. s.product_id == i.product_id && s.variant_id == i.variant_id) issues)

    pub is_out_of_stock : PricedItem F → Bool
    unfolding get_available_stock
    is_out_of_stock p = is_zero (get_available_stock p.item)

    pub confirmed_quantity : List (PricedItem F) → ℕ
    confirmed_quantity ps =
        reduce (λ acc p. if is_out_of_stock p || is_pending p.item then acc else acc + p.qty) 0
          (visible_for_pricing ps)

    pub total_quantity_including_pending : List (PricedItem F) → ℕ
    unfolding pending_quantity
    total_quantity_including_pending ps =
        reduce (λ acc p. if is_out_of_stock p then acc else acc + p.qty) 0 (visible_for_pricing ps)
        + pending_quantity ps

module _ {F : Type 0} ⦃n : Number F⦄ ⦃m : Money F⦄ (issues : List StockIssue) where
  open n use {add, sub, mul, is_truthy}
  open m use {of_ℕ}

  pub subtotal : List (PricedItem F) → F
  subtotal ps =
      reduce
        (λ acc p.
          if is_out_of_stock issues p || is_pending p.item then acc else add acc p.line_final)
        (of_ℕ 0) (visible_for_pricing ps)

  pub total_savings : List (PricedItem F) → F
  total_savings ps =
      reduce
        (λ acc p.
          if p.has_tier_discount && not (is_out_of_stock issues p) && not (is_pending p.item)
          then add acc (mul (sub p.original_unit p.unit_price) (of_ℕ p.qty))
          else acc)
        (of_ℕ 0) ps

module _ {F : Type 0} ⦃n : Number F⦄ ⦃m : Money F⦄ where
  -- `item.metadata?.wholesale_price || 0`
  guest_price : Option (Metadata F) → F
  guest_price none = m.of_ℕ 0
  guest_price (some d) = price_or_zero d.wholesale_price
    where
      price_or_zero : Property F → F
      price_or_zero (value a) = if n.is_truthy a then a else m.of_ℕ 0
      price_or_zero absent = m.of_ℕ 0
      price_or_zero undef = m.of_ℕ 0

  pub guest_subtotal : List (GuestCartItem F) → F
  unfolding guest_price
  guest_subtotal items =
      reduce (λ acc i. n.add acc (n.mul (guest_price i.metadata) (m.of_ℤ i.quantity))) (m.of_ℕ 0)
        items

pub guest_total_quantity : {F : Type 0} → List (GuestCartItem F) → ℤ
guest_total_quantity items = reduce (λ acc i. acc +ℤ i.quantity) (pos 0) items
