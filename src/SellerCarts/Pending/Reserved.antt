-- ===== src/SellerCarts/Pending/Reserved.antt =====
-- At which places front/src/app/vendedora/carritos/page.tsx reserves a pending item.
use mathlib.Core.Path.{subst}
use go_moda_mayor.Prelude.{
  ℕ, ◌≡◌, refl, true, ◌&&◌, ◌⊎◌, inl, inr, Option, none, some, List, [], ◌∷◌, ◌++◌, String, str_eq,
  if_elim, All,
}
use go_moda_mayor.Net.{Reply, Ack, failed, refused, acked}
use go_moda_mayor.SellerCarts.{SellerCart}
use go_moda_mayor.SellerCarts.Items.{CartItem}
use go_moda_mayor.SellerCarts.Pending.{
  reserve, PendingPage, item_key, is_listed, hide, fetched, forget, after_confirm, confirm_at,
  confirm_stock, PendingAction, act_all,
}
use go_moda_mayor.SellerCarts.Pending.Covered.{
  covers, places, none-Fine, Covered, HasQuantity, act_all-Covered,
}

-- What a confirmation sends, if anything.
abbrev pub Reserves : ℕ → CartItem → PendingPage → PendingPage → Type 0
Reserves cart_id it s t =
    (t.requested ≡ s.requested)
    ⊎ ((place : String) × (t.requested
          ≡ s.requested ++ (reserve it.product_id it.variant_id cart_id place ∷ []))
        × (covers it.quantity place (places (item_key cart_id it) s) ≡ true))

after_confirm-requested :
    (cart_id : ℕ) (it : CartItem) (place : String) (reply : Ack)
    (carts : Reply (Option (List SellerCart))) (s : PendingPage)
    → (after_confirm cart_id it place reply carts s).requested ≡ s.requested
unfolding after_confirm fetched forget hide
after_confirm-requested cart_id it place (failed m) carts s = refl
after_confirm-requested cart_id it place (refused status e) carts s = refl
after_confirm-requested cart_id it place acked carts s = refl

module _ (quantity_of : String → ℕ) where
  confirm_at-Reserves :
      (cart_id : ℕ) (it : CartItem) (o : Option String) (reply : Ack)
      (carts : Reply (Option (List SellerCart))) (s : PendingPage)
      → quantity_of (item_key cart_id it) ≡ it.quantity
      → s.selected_pending_locations (item_key cart_id it) ≡ o
      → Covered quantity_of s
      → Reserves cart_id it s (confirm_at cart_id it o reply carts s)
  unfolding confirm_at
  confirm_at-Reserves cart_id it none reply carts s q e h = inl refl
  confirm_at-Reserves cart_id it (some place) reply carts s q e h =
      if_elim (Reserves cart_id it s) (str_eq place "") s _ (λ _. inl refl)
        (λ _. inr (
          place,
          after_confirm-requested cart_id it place reply carts _,
          subst (λ n. covers n place (places (item_key cart_id it) s) ≡ true) q
              (h (item_key cart_id it) place e).1,
        ))

  -- While the quantities of the items stay: from a page on which no place is chosen, whatever a seller
  -- does about pending items, and however the server answers, a confirmation then sends nothing, or it
  -- reserves the item at a place that the server listed, for this item, with enough stock that is not
  -- reserved.
  pub confirm_stock-act_all :
      (actions : List (ℕ × CartItem × PendingAction)) (s : PendingPage)
      → ((key : String) → s.selected_pending_locations key ≡ none)
      → All (HasQuantity quantity_of) actions
      → (cart_id : ℕ) (it : CartItem) (reply : Ack) (carts : Reply (Option (List SellerCart)))
      → quantity_of (item_key cart_id it) ≡ it.quantity
      → Reserves cart_id it
          (act_all actions s)
          (confirm_stock cart_id it reply carts (act_all actions s))
  unfolding confirm_stock
  confirm_stock-act_all actions s fresh qs cart_id it reply carts q =
      let t = act_all actions s in
      let h = act_all-Covered quantity_of actions s qs (λ k.
        rw (fresh k)
          (none-Fine (quantity_of k) (s.showing_locations k) (s.pending_item_locations k))) in
      if_elim (Reserves cart_id it t)
        (t.showing_locations (item_key cart_id it)
          && is_listed (t.pending_item_locations (item_key cart_id it)))
        _ t (λ _. confirm_at-Reserves cart_id it _ reply carts t q refl h) (λ _. inl refl)
