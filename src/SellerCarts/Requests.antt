-- ===== src/SellerCarts/Requests.antt =====
-- The changes of an item in front/src/app/vendedora/carritos/page.tsx, and the end of a sale.
use go_moda_mayor.Prelude.{
  ℕ, zero, suc, Bool, true, false, Option, List, [], ◌∷◌, String, text_or, get_or, concat,
}
use go_moda_mayor.Prelude.Decimal.{show_ℕ}
use go_moda_mayor.Net.{Reply, Ack, failed, refused, garbled, accepted, acked}
use go_moda_mayor.Orders.{Spelled}
use go_moda_mayor.SellerCarts.{
  SellerCart, SellerPage, success, error, confirm, show_modal, fetch_carts,
}

-- The requests that change a cart: the cart, and then the product and the variant of the item.
pub data CartRequest : Type 0 where
  update : ℕ → ℕ → ℕ → ℕ → CartRequest
  remove : ℕ → ℕ → ℕ → CartRequest
  checkout : ℕ → CartRequest

-- The page after the requests, and the requests, in order.
abbrev pub Requested : Type 0
Requested = List CartRequest × SellerPage

module _ (carts : Reply (Option (List SellerCart))) where
  after_update : Ack → SellerPage → SellerPage
  after_update (failed m) s = show_modal error "Error al actualizar la cantidad" s
  after_update (refused status e) s =
      show_modal error (text_or e "No se pudo actualizar la cantidad") s
  after_update acked s = fetch_carts carts s

  -- The field of a quantity is left.
  pub update_qty : ℕ → ℕ → ℕ → ℕ → Ack → SellerPage → Requested
  unfolding after_update
  update_qty cart_id product variant qty reply s =
      (update cart_id product variant qty ∷ [], after_update reply s)

  after_removal : Ack → SellerPage → SellerPage
  after_removal (failed m) s = show_modal error "Error al eliminar el producto" s
  after_removal (refused status e) s = show_modal error "No se pudo eliminar el producto" s
  after_removal acked s =
      fetch_carts carts (show_modal success "El producto se eliminó correctamente del carrito" s)

  pub remove_item : ℕ → ℕ → ℕ → Ack → SellerPage → Requested
  unfolding after_removal
  remove_item cart_id product variant reply s =
      (remove cart_id product variant ∷ [], after_removal reply s)

  -- `data.orden?.id || data.orden?.ID || 'N/A'`
  shown_id : Spelled ℕ → String
  shown_id x = first (get_or x.lower 0) (get_or x.upper 0)
    where
      first : ℕ → ℕ → String
      first (suc n) m = show_ℕ (suc n)
      first zero (suc m) = show_ℕ (suc m)
      first zero zero = "N/A"

  -- The order that the answer names; one without an order has no identifier.
  after_checkout : Reply (Spelled ℕ) → SellerPage → SellerPage
  unfolding shown_id
  after_checkout (failed m) s = show_modal error "Error al finalizar la orden" s
  after_checkout (refused status e) s = show_modal error (text_or e "Error al finalizar la orden") s
  after_checkout (garbled m) s = show_modal error "Error al finalizar la orden" s
  after_checkout (accepted x) s = fetch_carts carts (
      show_modal success (concat ("La orden ha sido creada exitosamente. ID: " ∷ shown_id x ∷ []))
        s)

  -- The question, and what the seller answers to it.
  pub finalize : ℕ → Bool → Reply (Spelled ℕ) → SellerPage → Requested
  unfolding after_checkout
  finalize cart_id confirmed reply s =
      answer confirmed (
        show_modal confirm "¿Finalizar y crear la orden? Se descontará el stock correspondiente." s)
    where
      answer : Bool → SellerPage → Requested
      answer false s = ([], s)
      answer true s = (checkout cart_id ∷ [], after_checkout reply s)
