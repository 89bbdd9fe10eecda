-- ===== src/CartModal/Buttons/Minus.antt =====
-- What the two buttons for a guest's quantity in front/src/components/CartModal.tsx do to the cart.
use go_moda_mayor.Prelude.{
  ℕ, ◌≡◌, refl, ◌∙◌, true, false, ◌&&◌, some, ◌==◌, if◌then◌else◌, is_some, arith, Bool-cases, inl,
  inr,
}
use go_moda_mayor.Prelude.Int.{ℤ, pos, negsuc, ◌+ℤ◌, leb_ℤ}
use go_moda_mayor.GuestCart.{Store, IsJson, Browser, get_guest_cart}
use go_moda_mayor.GuestCart.Items.{GuestCartItem}
use go_moda_mayor.GuestCart.Quantity.{quantity_of, HasRoom, quantity_of-update_guest_cart_quantity}
use go_moda_mayor.CartModal.Buttons.{guest_minus, at_least_one}

positive : (q : ℤ) → leb_ℤ (at_least_one q) (pos 0) ≡ false
positive (pos n) = ground arith
positive (negsuc n) = ground arith

module _ {F T : Type 0} ⦃s : Store F T⦄ (json : IsJson F T s) (room : HasRoom s) (b : Browser F T)
    (window : b.has_window ≡ true) where
  -- The button with the minus sets the quantity of an item that stands in the cart to one less, but
  -- never below one, leaves all other quantities alone, and removes nothing.
  pub quantity_of-guest_minus :
      (i : GuestCartItem F) (p v : ℕ)
      → is_some (quantity_of i.product_id i.variant_id (get_guest_cart b)) ≡ true
      → quantity_of p v (get_guest_cart (guest_minus i b)) ≡ (
          if i.product_id == p && i.variant_id == v
          then some (at_least_one (i.quantity +ℤ negsuc 0))
          else quantity_of p v (get_guest_cart b))
  unfolding guest_minus
  quantity_of-guest_minus i p v here =
      let q = at_least_one (i.quantity +ℤ negsuc 0) in
      quantity_of-update_guest_cart_quantity json room b window p v i.product_id i.variant_id q
      ∙ elim (Bool-cases (i.product_id == p && i.variant_id == v)) [
        | inl e ↦
            let product : i.product_id ≡ p = ground (arith, e) in
            let variant : i.variant_id ≡ v = ground (arith, e) in
            let there : is_some (quantity_of p v (get_guest_cart b)) ≡ true =
              rw (← product, ← variant) here in
            rw (e, there, positive (i.quantity +ℤ negsuc 0)) refl
        | inr e ↦ rw e refl
      ]
