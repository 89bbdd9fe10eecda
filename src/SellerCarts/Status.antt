-- ===== src/SellerCarts/Status.antt =====
-- What a change of a cart's status in front/src/app/vendedora/carritos/page.tsx sends and says.
use go_moda_mayor.Prelude.{
  ℕ, zero, suc, ◌≡◌, refl, Bool, true, false, Option, none, some, List, [], ◌∷◌, ◌++◌, String,
  if◌then◌else◌, str_eq, find, concat, ◌&&◌, inl, inr, Bool-cases,
}
use go_moda_mayor.Prelude.Decimal.{show_ℕ}
use go_moda_mayor.Net.{Reply, Ack, failed, refused, garbled, accepted, acked}
use go_moda_mayor.SellerCarts.{
  SellerCart, SellerPage, ModalType, info, success, warning, error, confirm, set_status, after_cart,
  put_order, after_order, succeed, fetch_carts, order_of, is_cart,
}

-- The last message is one of success.
abbrev pub is_success : Option (ModalType × String) → Bool
is_success none = false
is_success (some (success, message)) = true
is_success (some (info, message)) = false
is_success (some (warning, message)) = false
is_success (some (error, message)) = false
is_success (some (confirm, message)) = false

abbrev pub is_acked : Ack → Bool
is_acked acked = true
is_acked (failed m) = false
is_acked (refused status e) = false

module _ (estado : String) where
  -- What is sent to the order, if there is one, and whether that succeeds.
  abbrev pub with_order : Option ℕ → List (String × String) → List (String × String)
  with_order none sent = sent
  with_order (some zero) sent = sent
  with_order (some (suc k)) sent =
      sent ++ ((concat ("/orders/" ∷ show_ℕ (suc k) ∷ "/status" ∷ []), estado) ∷ [])

  abbrev pub order_accepts : Option ℕ → Ack → Bool
  order_accepts none order = true
  order_accepts (some zero) order = true
  order_accepts (some (suc k)) order = is_acked order

  abbrev pub with_cart : ℕ → List (String × String) → List (String × String)
  with_cart cart_id sent =
      sent ++ ((concat ("/cart/" ∷ show_ℕ cart_id ∷ "/status" ∷ []), estado) ∷ [])

  module _ (carts : Reply (Option (List SellerCart))) where
    -- The requests, and whether success is said.
    abbrev Says : List (String × String) → Bool → SellerPage → Type 0
    Says sent good t = (t.sent ≡ sent) × (is_success t.modal ≡ good)

    fetch_carts-Says :
        (r : Reply (Option (List SellerCart))) (s : SellerPage)
        → Says s.sent (is_success s.modal) (fetch_carts r s)
    unfolding fetch_carts
    fetch_carts-Says (failed m) s = (refl, refl)
    fetch_carts-Says (refused status e) s = (refl, refl)
    fetch_carts-Says (garbled m) s = (refl, refl)
    fetch_carts-Says (accepted cs) s = (refl, refl)

    succeed-Says : (s : SellerPage) → Says s.sent true (succeed estado carts s)
    unfolding succeed
    succeed-Says s = fetch_carts-Says carts _

    after_order-Says :
        (order : Ack) (s : SellerPage)
        → Says s.sent (is_acked order) (after_order estado carts order s)
    unfolding after_order
    after_order-Says (failed m) s = (refl, refl)
    after_order-Says (refused status e) s = (refl, refl)
    after_order-Says acked s = succeed-Says s

    put_order-Says :
        (order : Ack) (o : Option ℕ) (s : SellerPage)
        → Says (with_order o s.sent) (order_accepts o order) (put_order estado carts order o s)
    unfolding put_order
    put_order-Says order none s = succeed-Says s
    put_order-Says order (some zero) s = succeed-Says s
    put_order-Says order (some (suc k)) s = after_order-Says order _

    after_cart-Says :
        (cart order : Ack) (o : Option ℕ) (s : SellerPage)
        → Says
            (if is_acked cart then with_order o s.sent else s.sent)
            (is_acked cart && order_accepts o order)
            (after_cart estado carts cart order o s)
    unfolding after_cart
    after_cart-Says (failed m) order o s = (refl, refl)
    after_cart-Says (refused status e) order o s = (refl, refl)
    after_cart-Says acked order o s = put_order-Says order o s

    -- The status `listo_para_pago` is put to the cart first, and to its order only once the cart's
    -- request was accepted; any other status is put to the order alone, if there is one. Success is
    -- said just if every request that was sent was accepted.
    pub set_status_lem :
        (cart_id : ℕ) (cart order : Ack) (s : SellerPage)
        → let t = set_status estado carts cart_id cart order s in
          let o = order_of (find (is_cart cart_id) s.carts) in
          let ready = str_eq estado "listo_para_pago" in
          (t.sent ≡ (
            if ready
            then (if is_acked cart
                then with_order o (with_cart cart_id s.sent)
                else with_cart cart_id s.sent)
            else with_order o s.sent))
          × (is_success t.modal
              ≡ (if ready then is_acked cart && order_accepts o order else order_accepts o order))
    unfolding set_status
    set_status_lem cart_id cart order s =
        let o = order_of (find (is_cart cart_id) s.carts) in
        elim (Bool-cases (str_eq estado "listo_para_pago")) [
          | inl e ↦
              rw e (after_cart-Says cart order o (record s { sent = with_cart cart_id s.sent }))
          | inr e ↦ rw e (put_order-Says order o s)
        ]
