-- ===== src/GuestCart/Refine.antt =====
-- The cart of front/src/utils/guestCart.ts as its clients see it: a function from product and variant
-- to the quantity, if there is one.
use mathlib.Core.Path.{fun_ext}
use go_moda_mayor.Prelude.{
  ℕ, ◌≡◌, refl, ap, ◌∙◌, true, ◌&&◌, Option, none, some, List, [], ◌∷◌, ◌==◌, if◌then◌else◌,
  is_some, keep, not, arith,
}
use go_moda_mayor.Prelude.Int.{ℤ, pos, leb_ℤ}
use go_moda_mayor.GuestCart.{
  Store, IsJson, Browser, get_guest_cart, set_guest_cart, add_to_guest_cart, remove_from_guest_cart,
  update_guest_cart_quantity, clear_guest_cart,
}
use go_moda_mayor.GuestCart.Items.{GuestCartItem, is_key, set_quantity}
use go_moda_mayor.GuestCart.Quantity.{
  more, quantity_of, HasRoom, quantity_of-add_to_guest_cart, quantity_of-remove_from_guest_cart,
  quantity_of-update_guest_cart_quantity,
}
use go_moda_mayor.GuestCart.Keys.{Call, add, remove, update, clear, run_call, run_calls}

abbrev pub Quantities : Type 0
Quantities = ℕ → ℕ → Option ℤ

module _ {F : Type 0} where
  -- The same calls, on such a function.
  abbrev pub replay_call : Call F → Quantities → Quantities
  replay_call (add item) f p v =
      if is_key p v item then some (more (f p v) item.quantity) else f p v
  replay_call (remove p' v') f p v = if p' == p && v' == v then none else f p v
  replay_call (update p' v' q) f p v =
      if p' == p && v' == v && is_some (f p v)
      then (if leb_ℤ q (pos 0) then none else some q)
      else f p v
  replay_call clear f p v = none

  pub replay : List (Call F) → Quantities → Quantities
  replay [] f = f
  replay (c ∷ cs) f = replay cs (replay_call c f)

module _ {F T : Type 0} ⦃s : Store F T⦄ where
  abbrev pub quantities : Browser F T → Quantities
  quantities b p v = quantity_of p v (get_guest_cart b)

  set_guest_cart-window :
      (items : List (GuestCartItem F)) (b : Browser F T)
      → (set_guest_cart items b).has_window ≡ b.has_window
  unfolding set_guest_cart
  set_guest_cart-window items b = ground arith

  run_call-window : (c : Call F) (b : Browser F T) → (run_call c b).has_window ≡ b.has_window
  unfolding run_call add_to_guest_cart remove_from_guest_cart update_guest_cart_quantity
      clear_guest_cart
  run_call-window (add item) b = set_guest_cart-window _ b
  run_call-window (remove p v) b = set_guest_cart-window _ b
  run_call-window (update p v q) b = ground (
    arith,
    set_guest_cart-window (keep (λ i. not (is_key p v i)) (get_guest_cart b)) b,
    set_guest_cart-window (set_quantity p v q (get_guest_cart b)) b,
  )
  run_call-window clear b = ground arith

  module _ (json : IsJson F T s) (room : HasRoom s) where
    run_call_refines :
        (c : Call F) (b : Browser F T)
        → b.has_window ≡ true
        → quantities (run_call c b) ≡ replay_call c (quantities b)
    unfolding run_call
    run_call_refines (add item) b w =
        fun_ext λ p. fun_ext λ v. quantity_of-add_to_guest_cart json room b w p v item
    run_call_refines (remove p' v') b w =
        fun_ext λ p. fun_ext λ v. quantity_of-remove_from_guest_cart json room b w p v p' v'
    run_call_refines (update p' v' q) b w =
        fun_ext λ p. fun_ext λ v. quantity_of-update_guest_cart_quantity json room b w p v p' v' q
    run_call_refines clear b w = unfold clear_guest_cart get_guest_cart quantity_of in rw w refl

    -- In a browser with a window, whose storage has room for every cart, any sequence of calls leaves
    -- the quantities that the same calls leave on a function from product and variant to quantity:
    -- adding adds, removing removes, and an update replaces the quantity of what is there, or removes
    -- it if the new quantity is not above zero.
    pub run_calls_refines :
        (cs : List (Call F)) (b : Browser F T)
        → b.has_window ≡ true
        → quantities (run_calls cs b) ≡ replay cs (quantities b)
    unfolding run_calls replay
    run_calls_refines [] b w = refl
    run_calls_refines (c ∷ cs) b w =
        run_calls_refines cs (run_call c b) (run_call-window c b ∙ w)
        ∙ ap (replay cs) (run_call_refines c b w)
