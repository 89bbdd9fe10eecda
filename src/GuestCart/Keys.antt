-- ===== src/GuestCart/Keys.antt =====
-- The invariant of front/src/utils/guestCart.ts: no product and variant stands twice in the cart.
use go_moda_mayor.Prelude.{
  ℕ, ◌≡◌, refl, not, ◌&&◌, none, List, [], ◌∷◌, map, arith, keep, find, is_some, inl, inr,
  Bool-cases,
}
use go_moda_mayor.Prelude.Int.{ℤ, pos, leb_ℤ}
use go_moda_mayor.GuestCart.{
  Store, IsJson, Browser, get_guest_cart, set_guest_cart, add_to_guest_cart, remove_from_guest_cart,
  update_guest_cart_quantity, clear_guest_cart,
}
use go_moda_mayor.GuestCart.Items.{GuestCartItem, is_key, add_item, set_quantity, clean}
use go_moda_mayor.GuestCart.Quantity.{
  quantity_of, quantity_of-clean, quantity_of-add_item, quantity_of-set_quantity, quantity_of-keep,
}

module _ {F : Type 0} where
  abbrev pub HasDistinctKeys : List (GuestCartItem F) → Type 0
  HasDistinctKeys [] = Unit
  HasDistinctKeys (i ∷ is) = (quantity_of i.product_id i.variant_id is ≡ none) × HasDistinctKeys is

  clean-HasDistinctKeys :
      (is : List (GuestCartItem F)) → HasDistinctKeys is → HasDistinctKeys (map clean is)
  clean-HasDistinctKeys [] d = tt
  clean-HasDistinctKeys (i ∷ is) (h, d) =
      (rw (quantity_of-clean i.product_id i.variant_id is) h, clean-HasDistinctKeys is d)

  add_item-HasDistinctKeys :
      (item : GuestCartItem F) (is : List (GuestCartItem F))
      → HasDistinctKeys is
      → HasDistinctKeys (add_item item is)
  unfolding add_item
  add_item-HasDistinctKeys item [] d = unfold quantity_of in (refl, tt)
  add_item-HasDistinctKeys item (i ∷ is) (h, d) = ground (
    arith,
    quantity_of-add_item i.product_id i.variant_id item is,
    add_item-HasDistinctKeys item is d,
  )

  set_quantity-HasDistinctKeys :
      (p v : ℕ) (q : ℤ) (is : List (GuestCartItem F))
      → HasDistinctKeys is
      → HasDistinctKeys (set_quantity p v q is)
  unfolding set_quantity
  set_quantity-HasDistinctKeys p v q [] d = tt
  set_quantity-HasDistinctKeys p v q (i ∷ is) (h, d) = ground (
    arith,
    quantity_of-set_quantity i.product_id i.variant_id p v q is,
    set_quantity-HasDistinctKeys p v q is d,
  )

  keep-HasDistinctKeys :
      (p v : ℕ) (is : List (GuestCartItem F))
      → HasDistinctKeys is
      → HasDistinctKeys (keep (λ i. not (is_key p v i)) is)
  keep-HasDistinctKeys p v [] d = tt
  keep-HasDistinctKeys p v (i ∷ is) (h, d) =
      ground
        (arith, quantity_of-keep i.product_id i.variant_id p v is, keep-HasDistinctKeys p v is d)

-- A call of the module by a component of the client.
pub data Call (F : Type 0) : Type 0 where
  add : GuestCartItem F → Call F
  remove : ℕ → ℕ → Call F
  update : ℕ → ℕ → ℤ → Call F
  clear : Call F

module _ {F T : Type 0} ⦃s : Store F T⦄ where
  unfoldable pub run_call : Call F → Browser F T → Browser F T
  run_call (add item) b = add_to_guest_cart item b
  run_call (remove p v) b = remove_from_guest_cart p v b
  run_call (update p v q) b = update_guest_cart_quantity p v q b
  run_call clear b = clear_guest_cart b

  unfoldable pub run_calls : List (Call F) → Browser F T → Browser F T
  run_calls [] b = b
  run_calls (c ∷ cs) b = run_calls cs (run_call c b)

  abbrev pub IsKeyed : Browser F T → Type 0
  IsKeyed b = HasDistinctKeys (get_guest_cart b)

  module _ (json : IsJson F T s) where
    set_guest_cart-IsKeyed :
        (items : List (GuestCartItem F)) (b : Browser F T)
        → HasDistinctKeys items
        → IsKeyed b
        → IsKeyed (set_guest_cart items b)
    unfolding set_guest_cart get_guest_cart
    set_guest_cart-IsKeyed items b d k =
        elim (Bool-cases (b.has_window && s.accepts (s.stringify items))) [
          | inl e ↦ rw e (elim (Bool-cases b.has_window) [
            | inl w ↦
                rw (w, json.stringify_nonempty items, json.parse-stringify items)
                  (clean-HasDistinctKeys items d)
            | inr w ↦ rw w tt
          ])
          | inr e ↦ rw e k
        ]

    remove_from_guest_cart-IsKeyed :
        (p v : ℕ) (b : Browser F T) → IsKeyed b → IsKeyed (remove_from_guest_cart p v b)
    unfolding remove_from_guest_cart
    remove_from_guest_cart-IsKeyed p v b k =
        set_guest_cart-IsKeyed _ b (keep-HasDistinctKeys p v (get_guest_cart b) k) k

    update_guest_cart_quantity-IsKeyed :
        (p v : ℕ) (q : ℤ) (b : Browser F T)
        → IsKeyed b
        → IsKeyed (update_guest_cart_quantity p v q b)
    unfolding update_guest_cart_quantity
    update_guest_cart_quantity-IsKeyed p v q b k =
        let cart = get_guest_cart b in
        elim (Bool-cases (is_some (find (is_key p v) cart))) [
          | inl e ↦ elim (Bool-cases (leb_ℤ q (pos 0))) [
            | inl z ↦ rw (e, z) (remove_from_guest_cart-IsKeyed p v b k)
            | inr z ↦
                rw (e, z)
                  (set_guest_cart-IsKeyed (set_quantity p v q cart) b
                    (set_quantity-HasDistinctKeys p v q cart k) k)
          ]
          | inr e ↦ rw e k
        ]

    clear_guest_cart-IsKeyed : (b : Browser F T) → IsKeyed b → IsKeyed (clear_guest_cart b)
    unfolding clear_guest_cart get_guest_cart
    clear_guest_cart-IsKeyed b k = elim (Bool-cases b.has_window) [
      | inl w ↦ rw w tt
      | inr w ↦ rw w tt
    ]

    run_call-IsKeyed : (c : Call F) (b : Browser F T) → IsKeyed b → IsKeyed (run_call c b)
    unfolding run_call add_to_guest_cart
    run_call-IsKeyed (add item) b k =
        set_guest_cart-IsKeyed _ b (add_item-HasDistinctKeys item (get_guest_cart b) k) k
    run_call-IsKeyed (remove p v) b k = remove_from_guest_cart-IsKeyed p v b k
    run_call-IsKeyed (update p v q) b k = update_guest_cart_quantity-IsKeyed p v q b k
    run_call-IsKeyed clear b k = clear_guest_cart-IsKeyed b k

    -- From a browser whose cart holds no product and variant twice, in particular an empty one, no
    -- sequence of calls makes a cart that does, whether or not the storage has room and whether or
    -- not there is a window.
    pub run_calls-IsKeyed :
        (cs : List (Call F)) (b : Browser F T) → IsKeyed b → IsKeyed (run_calls cs b)
    unfolding run_calls
    run_calls-IsKeyed [] b k = k
    run_calls-IsKeyed (c ∷ cs) b k = run_calls-IsKeyed cs (run_call c b) (run_call-IsKeyed c b k)
