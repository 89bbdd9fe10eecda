-- ===== src/SellerCarts.antt =====
-- front/src/app/vendedora/carritos/page.tsx: the carts that are assigned to a seller, their prices, the
-- notice of a change of tier, and the change of a cart's status.
pub mod Price
pub mod Notice
pub mod Status
pub mod Items
pub mod Pending
pub mod Recheck
pub mod Hint
pub mod Flow
pub mod Choice
pub mod Address
pub mod Requests
mod Tests
use go_moda_mayor.Prelude.{
  ℕ, zero, suc, Bool, true, false, not, ◌&&◌, Option, none, some, List, [], ◌∷◌, ◌++◌, String, ◌==◌,
  leb, if◌then◌else◌, find, keep, str_eq, truthy, text_or, get_or, or_else, concat,
}
use go_moda_mayor.Prelude.Decimal.{show_ℕ}
use go_moda_mayor.Net.{Reply, Ack, failed, refused, garbled, accepted, acked}
use go_moda_mayor.Orders.{Spelled}
use go_moda_mayor.Pricing.{
  Number, PriceTier, FormulaType, multiplier, percentage_markup, flat_amount, unknown, active_tiers,
}

-- `find(reached) || find(is_default)` on the active tiers in order.
pub applicable_tier : {F : Type 0} → List (PriceTier F) → ℕ → Option (PriceTier F)
applicable_tier tiers total =
    let sorted = active_tiers tiers in
    or_else (find (λ t. leb t.min_quantity total) sorted) (find (λ t. t.is_default) sorted)

-- `one` and `markup` are the numbers 1 and 2.5.
module _ {F : Type 0} ⦃n : Number F⦄ (one markup : F) where
  price_by : FormulaType → F → PriceTier F → F
  price_by multiplier cost t = n.mul cost t.multiplier
  price_by percentage_markup cost t = n.mul cost markup
  price_by flat_amount cost t = n.mul cost markup
  price_by (unknown formula) cost t =
      if str_eq formula "percentage"
      then n.mul cost (n.add one (n.div t.percentage n.hundred))
      else if str_eq formula "flat"
      then n.add cost t.flat_amount
      else n.mul cost markup

  price_of : F → Option (PriceTier F) → F
  unfolding price_by
  price_of cost none = n.mul cost markup
  price_of cost (some t) = price_by t.formula_type cost t

  -- Without tiers there is no applicable one, and the price is the same as for none.
  pub calculate_price_with_tier : List (PriceTier F) → F → ℕ → F
  unfolding price_of
  calculate_price_with_tier tiers cost total = price_of cost (applicable_tier tiers total)

-- A cart, with the name of its summary's current tier, if there is one: its `display_name`, and its
-- `name`.
pub record SellerCart : Type 0 where
  pub id : Spelled ℕ
  pub order_id : Option ℕ
  pub estado : Option String
  pub current_tier : Option (Option String × Option String)

pub data ModalType : Type 0 where
  info success warning error confirm : ModalType

-- The page, with the last message shown, and the requests sent: the path and the status, in order.
pub record SellerPage : Type 0 where
  pub carts : List SellerCart
  pub loading : Bool
  pub error : Option String
  pub previous_tier_name : Option String
  pub tier_just_changed : Bool
  pub modal : Option (ModalType × String)
  pub sent : List (String × String)

-- The effect on `carts`: each round sees the name that was kept before the loop.
module _ (previous : Option String) where
  see : Option String → SellerPage → SellerPage
  see name s = record s {
    tier_just_changed =
        if truthy previous && not (str_eq (get_or previous "") (get_or name ""))
        then true
        else s.tier_just_changed;
    previous_tier_name = name;
  }

  see_tier : Option (Option String × Option String) → SellerPage → SellerPage
  unfolding see
  see_tier none s = s
  see_tier (some (display_name, name)) s =
      see (if truthy display_name then display_name else name) s

  see_all : List SellerCart → SellerPage → SellerPage
  unfolding see_tier
  see_all [] s = s
  see_all (c ∷ cs) s = see_all cs (see_tier c.current_tier s)

pub watch_tiers : SellerPage → SellerPage
unfolding see_all
watch_tiers s = see_all s.previous_tier_name s.carts s

-- The carts, unless the JSON is null.
pub fetch_carts : Reply (Option (List SellerCart)) → SellerPage → SellerPage
fetch_carts (failed m) s = record s {
  error = some (text_or (some m) "Error desconocido");
  loading = false;
}
fetch_carts (refused status e) s = record s {
  error = some "No se pudieron obtener los carritos";
  loading = false;
}
fetch_carts (garbled m) s = record s {
  error = some (text_or (some m) "Error desconocido");
  loading = false;
}
fetch_carts (accepted carts) s = record s { carts = get_or carts []; error = none; loading = false }

abbrev order_of : Option SellerCart → Option ℕ
order_of none = none
order_of (some c) = c.order_id

-- `(c.ID ?? c.id) === cartId`
abbrev is_cart : ℕ → SellerCart → Bool
is_cart cart_id c = has_id (or_else c.id.upper c.id.lower)
  where
    has_id : Option ℕ → Bool
    has_id none = false
    has_id (some i) = i == cart_id

abbrev pub show_modal : ModalType → String → SellerPage → SellerPage
show_modal type message s = record s { modal = some (type, message) }

module _ (estado : String) (carts : Reply (Option (List SellerCart))) where
  succeed : SellerPage → SellerPage
  succeed s = fetch_carts carts (
      show_modal success (concat ("El estado se cambió a \"" ∷ estado ∷ "\" correctamente" ∷ [])) s)

  after_order : Ack → SellerPage → SellerPage
  unfolding succeed
  after_order (failed m) s = show_modal error "Error al actualizar el estado" s
  after_order (refused status e) s =
      show_modal error (text_or e "No se pudo actualizar el estado de la orden") s
  after_order acked s = succeed s

  put_order : Ack → Option ℕ → SellerPage → SellerPage
  unfolding after_order
  put_order order none s = succeed s
  put_order order (some zero) s = succeed s
  put_order order (some (suc k)) s = after_order order (record s {
    sent = s.sent ++ ((concat ("/orders/" ∷ show_ℕ (suc k) ∷ "/status" ∷ []), estado) ∷ []);
  })

  after_cart : Ack → Ack → Option ℕ → SellerPage → SellerPage
  unfolding put_order
  after_cart (failed m) order order_id s = show_modal error "Error al actualizar el estado" s
  after_cart (refused status e) order order_id s =
      show_modal error (text_or e "No se pudo actualizar el estado del carrito") s
  after_cart acked order order_id s = put_order order order_id s

  pub set_status : ℕ → Ack → Ack → SellerPage → SellerPage
  unfolding after_cart
  set_status cart_id cart order s =
      let order_id = order_of (find (is_cart cart_id) s.carts) in
      if str_eq estado "listo_para_pago"
      then after_cart cart order order_id (record s {
        sent = s.sent ++ ((concat ("/cart/" ∷ show_ℕ cart_id ∷ "/status" ∷ []), estado) ∷ []);
      })
      else put_order order order_id s

-- The carts that are listed; `to_lower_case` is the language's.
pub active_carts : (String → String) → List SellerCart → List SellerCart
active_carts to_lower_case carts = keep (λ c. has_order c.order_id && is_active c.estado) carts
  where
    has_order : Option ℕ → Bool
    has_order none = false
    has_order (some n) = not (n == 0)

    is_active : Option String → Bool
    is_active none = true
    is_active (some e) =
        not (str_eq (to_lower_case e) "completado") && not (str_eq (to_lower_case e) "cancelado")
