-- ===== src/CartModal/Seller/Request.antt =====
-- When front/src/components/CartModal.tsx asks for a seller.
use go_moda_mayor.Prelude.{
  ℕ, zero, suc, ◌≡◌, refl, ◌≤◌, false, ◌&&◌, ◌||◌, Option, none, some, List, [], ◌∷◌, ◌++◌, String,
  arith, ltb, truthy, get_or, keep, ◌⊎◌, inl, inr, if_elim,
}
use go_moda_mayor.Net.{Reply, failed, refused, garbled, accepted}
use go_moda_mayor.Orders.{Spelled}
use go_moda_mayor.StockCheck.{StockIssue}
use go_moda_mayor.CartModal.{PricedItem}
use go_moda_mayor.CartModal.Totals.{confirmed_quantity}
use go_moda_mayor.CartModal.Totals.Counted.{sum_of, counted, confirmed_quantity-sum_of}
use go_moda_mayor.CartModal.Seller.{
  SellerState, Answers, click_request_seller, with_cart, with_cart_id, after_user, after_addresses,
  after_assignment, request_assignment, header, min_wholesale_quantity,
}

module _ {C : Type 0} where
  -- Nothing was posted, and no success is shown that was not shown before.
  abbrev pub IsQuiet : SellerState C → SellerState C → Type 0
  IsQuiet s t =
      (t.posted ≡ s.posted) × (t.show_seller_requested_modal ≡ s.show_seller_requested_modal)

module _ {C : Type 0} (answers : Answers C) where
  -- One request was posted, with the token; success is shown only if it was accepted, and the button
  -- is free again.
  abbrev pub IsPosted : SellerState C → SellerState C → Type 0
  IsPosted s t =
      ((path : String) × (t.posted ≡ s.posted ++ (path, header s.shared.token) ∷ []))
      × ((t.show_seller_requested_modal ≡ s.show_seller_requested_modal)
          ⊎ ((name : Option String) × (answers.assignment ≡ accepted name)))
      × (t.requesting_seller ≡ false)

  abbrev pub HasAddress : SellerState C → Type 0
  HasAddress s =
      ((truthy s.stored_user && truthy s.shared.token) ≡ false)
      ⊎ ((k : ℕ) × (answers.addresses ≡ accepted (some (suc k))))

  after_assignment-lem :
      (r : Reply (Option String)) (s : SellerState C)
      → answers.assignment ≡ r
      → let t = after_assignment answers r s in
        (t.posted ≡ s.posted)
        × ((t.show_seller_requested_modal ≡ s.show_seller_requested_modal)
            ⊎ ((name : Option String) × (answers.assignment ≡ accepted name)))
        × (t.requesting_seller ≡ false)
  unfolding after_assignment
  after_assignment-lem (failed m) s e = (refl, inl refl, refl)
  after_assignment-lem (refused status error) s e = (refl, inl refl, refl)
  after_assignment-lem (garbled m) s e = (refl, inl refl, refl)
  after_assignment-lem (accepted name) s e = (refl, inr (name, e), refl)

  request_assignment-IsPosted :
      (id : ℕ) (s : SellerState C) → IsPosted s (request_assignment answers id s)
  unfolding request_assignment
  request_assignment-IsPosted id s =
      let (posted, shown, free) = after_assignment-lem answers.assignment _ refl in
      ((_, posted), shown, free)

  -- Either nothing is posted, or one request is, and there is an address where it is looked for.
  abbrev Careful : SellerState C → SellerState C → Type 0
  Careful s t = IsQuiet s t ⊎ (HasAddress s × IsPosted s t)

  after_addresses-Careful :
      (id : ℕ) (r : Reply (Option ℕ)) (s : SellerState C)
      → answers.addresses ≡ r
      → Careful s (after_addresses answers id r s)
  unfolding after_addresses
  after_addresses-Careful id (failed m) s e = inl (refl, refl)
  after_addresses-Careful id (refused status error) s e = inl (refl, refl)
  after_addresses-Careful id (garbled m) s e = inl (refl, refl)
  after_addresses-Careful id (accepted none) s e = inl (refl, refl)
  after_addresses-Careful id (accepted (some zero)) s e = inl (refl, refl)
  after_addresses-Careful id (accepted (some (suc k))) s e =
      inr (inr (k, e), request_assignment-IsPosted id s)

  after_user-Careful :
      (id : ℕ) (u : Option (Option ℕ)) (s : SellerState C) → Careful s (after_user answers id u s)
  unfolding after_user
  after_user-Careful id none s = inl (refl, refl)
  after_user-Careful id (some user) s = after_addresses-Careful id answers.addresses _ refl

  module _ (parse_id : String → Option (Option ℕ)) (ids : C → Spelled ℕ) where
    with_cart_id-Careful :
        (id : Option ℕ) (s : SellerState C) → Careful s (with_cart_id answers parse_id ids id s)
    unfolding with_cart_id
    with_cart_id-Careful none s = inl (refl, refl)
    with_cart_id-Careful (some zero) s = inl (refl, refl)
    with_cart_id-Careful (some (suc k)) s =
        if_elim (Careful s) (truthy s.stored_user && truthy s.shared.token)
          (after_user answers (suc k) (parse_id (get_or s.stored_user "")) s)
          (request_assignment answers (suc k) s)
          (λ e. after_user-Careful (suc k) (parse_id (get_or s.stored_user "")) s)
          (λ e. inr (inl e, request_assignment-IsPosted (suc k) s))

    with_cart-Careful :
        (c : Option C) (s : SellerState C) → Careful s (with_cart answers parse_id ids c s)
    unfolding with_cart
    with_cart-Careful none s = inl (refl, refl)
    with_cart-Careful (some c) s = with_cart_id-Careful _ s

    -- A click either posts nothing and shows no new success, or it posts one request with the token.
    -- Then the button was not busy, the cart has at least six garments that are neither pending nor
    -- out of stock, and, if a user and a token are stored, the server sent at least one address;
    -- success is shown only if the request was accepted, and the button is free again.
    pub click_request_seller_lem :
        (issues : List StockIssue) {F : Type 0} (ps : List (PricedItem F)) (s : SellerState C)
        → let t = click_request_seller answers parse_id ids (confirmed_quantity issues ps) s in
          IsQuiet s t
          ⊎ ((s.requesting_seller ≡ false)
              × (min_wholesale_quantity ≤ sum_of (keep (counted issues) ps))
              × HasAddress s
              × IsPosted s t)
    unfolding click_request_seller
    click_request_seller_lem issues ps s =
        let n = confirmed_quantity issues ps in
        if_elim
          (λ t.
            IsQuiet s t
            ⊎ ((s.requesting_seller ≡ false)
                × (min_wholesale_quantity ≤ sum_of (keep (counted issues) ps))
                × HasAddress s
                × IsPosted s t))
          (s.requesting_seller || ltb n min_wholesale_quantity) s
          (with_cart answers parse_id ids s.shared.cart s) (λ _. inl (refl, refl))
          (λ e.
            let idle : s.requesting_seller ≡ false = ground (arith, e) in
            let enough : min_wholesale_quantity ≤ sum_of (keep (counted issues) ps) =
              ground (arith, e, confirmed_quantity-sum_of issues ps) in
            elim (with_cart-Careful s.shared.cart s) [
              | inl quiet ↦ inl quiet
              | inr (address, posted) ↦ inr (idle, enough, address, posted)
            ])
