-- ===== src/GuestCart/Quantity.antt =====
-- What each operation of front/src/utils/guestCart.ts does to the quantity of every product and
-- variant, to the number of items and to the stored text.
use go_moda_mayor.Prelude.{
  ℕ, ◌≡◌, refl, true, not, ◌&&◌, Option, none, some, List, [], ◌∷◌, ◌++◌, map, arith, ◌==◌,
  if◌then◌else◌, keep, find, is_some, inl, inr, Bool-cases, sym,
}
use mathlib.Core.Path.{subst}
use go_moda_mayor.Prelude.Int.{ℤ, pos, ◌+ℤ◌, leb_ℤ, int_laws}
use go_moda_mayor.GuestCart.{
  Store, IsJson, Browser, get_guest_cart, set_guest_cart, add_to_guest_cart, remove_from_guest_cart,
  update_guest_cart_quantity, sum_quantities, get_guest_cart_item_count,
}
use go_moda_mayor.GuestCart.Items.{GuestCartItem, is_key, add_item, set_quantity, clean}

abbrev pub more : Option ℤ → ℤ → ℤ
more none q = q
more (some old) q = old +ℤ q

module _ {F : Type 0} where
  -- The quantity of a product's variant in a cart.
  unfoldable pub quantity_of : ℕ → ℕ → List (GuestCartItem F) → Option ℤ
  quantity_of p v [] = none
  quantity_of p v (i ∷ is) = if is_key p v i then some i.quantity else quantity_of p v is

  pub quantity_of-clean :
      (p v : ℕ) (is : List (GuestCartItem F)) → quantity_of p v (map clean is) ≡ quantity_of p v is
  unfolding quantity_of
  quantity_of-clean p v [] = refl
  quantity_of-clean p v (i ∷ is) = rw (quantity_of-clean p v is)

  pub quantity_of-add_item :
      (p v : ℕ) (item : GuestCartItem F) (is : List (GuestCartItem F))
      → quantity_of p v (add_item item is) ≡ (
          if is_key p v item
          then some (more (quantity_of p v is) item.quantity)
          else quantity_of p v is)
  unfolding quantity_of add_item
  quantity_of-add_item p v item [] = refl
  quantity_of-add_item p v item (i ∷ is) = ground (arith, quantity_of-add_item p v item is)

  pub quantity_of-set_quantity :
      (p v p' v' : ℕ) (q : ℤ) (is : List (GuestCartItem F))
      → quantity_of p v (set_quantity p' v' q is) ≡ (
          if p' == p && v' == v && is_some (quantity_of p v is) then some q else quantity_of p v is)
  unfolding quantity_of set_quantity
  quantity_of-set_quantity p v p' v' q [] = ground arith
  quantity_of-set_quantity p v p' v' q (i ∷ is) =
      ground (arith, quantity_of-set_quantity p v p' v' q is)

  pub quantity_of-keep :
      (p v p' v' : ℕ) (is : List (GuestCartItem F))
      → quantity_of p v (keep (λ i. not (is_key p' v' i)) is)
        ≡ (if p' == p && v' == v then none else quantity_of p v is)
  unfolding quantity_of
  quantity_of-keep p v p' v' [] = ground arith
  quantity_of-keep p v p' v' (i ∷ is) = ground (arith, quantity_of-keep p v p' v' is)

  pub find-quantity_of :
      (p v : ℕ) (is : List (GuestCartItem F))
      → is_some (find (is_key p v) is) ≡ is_some (quantity_of p v is)
  unfolding quantity_of
  find-quantity_of p v [] = refl
  find-quantity_of p v (i ∷ is) = ground (arith, find-quantity_of p v is)

  sum_quantities-+ℤ :
      (a b : ℤ) (is : List (GuestCartItem F))
      → sum_quantities (a +ℤ b) is ≡ sum_quantities a is +ℤ b
  unfolding sum_quantities
  sum_quantities-+ℤ a b [] = refl
  sum_quantities-+ℤ a b (i ∷ is) =
      let swap : a +ℤ b +ℤ i.quantity ≡ a +ℤ i.quantity +ℤ b = omega int_laws in
      rw swap (sum_quantities-+ℤ (a +ℤ i.quantity) b is)

  sum_quantities-clean :
      (a : ℤ) (is : List (GuestCartItem F)) → sum_quantities a (map clean is) ≡ sum_quantities a is
  unfolding sum_quantities
  sum_quantities-clean a [] = refl
  sum_quantities-clean a (i ∷ is) = sum_quantities-clean (a +ℤ i.quantity) is

  sum_quantities-add_item :
      (a : ℤ) (item : GuestCartItem F) (is : List (GuestCartItem F))
      → sum_quantities a (add_item item is) ≡ sum_quantities a is +ℤ item.quantity
  unfolding sum_quantities add_item
  sum_quantities-add_item a item [] = refl
  sum_quantities-add_item a item (i ∷ is) =
      elim (Bool-cases (is_key item.product_id item.variant_id i)) [
        | inl e ↦
            let regroup : a +ℤ (i.quantity +ℤ item.quantity) ≡ a +ℤ i.quantity +ℤ item.quantity =
              omega int_laws in
            rw e (
              subst
                (λ (t : ℤ).
                  sum_quantities t is ≡ sum_quantities (a +ℤ i.quantity) is +ℤ item.quantity)
                (sym regroup) (sum_quantities-+ℤ (a +ℤ i.quantity) item.quantity is))
        | inr e ↦ rw e (sum_quantities-add_item (a +ℤ i.quantity) item is)
      ]

-- The storage has room for every cart.
abbrev pub HasRoom : {F T : Type 0} → Store F T → Type 0
HasRoom {F} s = (items : List (GuestCartItem F)) → s.accepts (s.stringify items) ≡ true

module _ {F T : Type 0} ⦃s : Store F T⦄ (json : IsJson F T s) where
  -- In a browser whose storage takes the text, what is read after a write is what was written, less
  -- the properties that are undefined, and the event carries what was written.
  pub get_guest_cart-set_guest_cart :
      (items : List (GuestCartItem F)) (b : Browser F T)
      → b.has_window ≡ true
      → s.accepts (s.stringify items) ≡ true
      → (get_guest_cart (set_guest_cart items b) ≡ map clean items)
        × ((set_guest_cart items b).events ≡ b.events ++ items ∷ [])
  unfolding get_guest_cart set_guest_cart
  get_guest_cart-set_guest_cart items b w r =
      rw (w, r, json.stringify_nonempty items, json.parse-stringify items) (refl, refl)

  module _ (room : HasRoom s) (b : Browser F T) (window : b.has_window ≡ true) where
    stored :
        (items : List (GuestCartItem F)) → get_guest_cart (set_guest_cart items b) ≡ map clean items
    stored items = (get_guest_cart-set_guest_cart items b window (room items)).0

    -- Adding an item raises the quantity of its product and variant by the item's, from nothing if
    -- it was not there, and changes no other quantity.
    pub quantity_of-add_to_guest_cart :
        (p v : ℕ) (item : GuestCartItem F)
        → quantity_of p v (get_guest_cart (add_to_guest_cart item b)) ≡ (
            if is_key p v item
            then some (more (quantity_of p v (get_guest_cart b)) item.quantity)
            else quantity_of p v (get_guest_cart b))
    unfolding add_to_guest_cart
    quantity_of-add_to_guest_cart p v item =
        let cart = get_guest_cart b in
        rw (stored (add_item item cart), quantity_of-clean p v (add_item item cart))
          (quantity_of-add_item p v item cart)

    -- Removing a product's variant leaves no item of it and changes no other quantity.
    pub quantity_of-remove_from_guest_cart :
        (p v p' v' : ℕ)
        → quantity_of p v (get_guest_cart (remove_from_guest_cart p' v' b))
          ≡ (if p' == p && v' == v then none else quantity_of p v (get_guest_cart b))
    unfolding remove_from_guest_cart
    quantity_of-remove_from_guest_cart p v p' v' =
        let left = keep (λ i. not (is_key p' v' i)) (get_guest_cart b) in
        rw (stored left, quantity_of-clean p v left) (quantity_of-keep p v p' v' (get_guest_cart b))

    -- Setting a quantity changes only that product's variant, and only if it is in the cart: a
    -- quantity above zero replaces its quantity, any other removes it.
    pub quantity_of-update_guest_cart_quantity :
        (p v p' v' : ℕ) (q : ℤ)
        → quantity_of p v (get_guest_cart (update_guest_cart_quantity p' v' q b)) ≡ (
            if p' == p && v' == v && is_some (quantity_of p v (get_guest_cart b))
            then (if leb_ℤ q (pos 0) then none else some q)
            else quantity_of p v (get_guest_cart b))
    unfolding update_guest_cart_quantity
    quantity_of-update_guest_cart_quantity p v p' v' q =
        let cart = get_guest_cart b in
        let new = set_quantity p' v' q cart in
        ground (
          arith,
          find-quantity_of p' v' cart,
          quantity_of-remove_from_guest_cart p v p' v',
          stored new,
          quantity_of-clean p v new,
          quantity_of-set_quantity p v p' v' q cart,
        )

    -- The number shown on the cart grows by just the quantity that is added.
    pub get_guest_cart_item_count-add_to_guest_cart :
        (item : GuestCartItem F)
        → get_guest_cart_item_count (add_to_guest_cart item b)
          ≡ get_guest_cart_item_count b +ℤ item.quantity
    unfolding get_guest_cart_item_count add_to_guest_cart
    get_guest_cart_item_count-add_to_guest_cart item =
        let cart = get_guest_cart b in
        rw (stored (add_item item cart), sum_quantities-clean (pos 0) (add_item item cart))
          (sum_quantities-add_item (pos 0) item cart)
