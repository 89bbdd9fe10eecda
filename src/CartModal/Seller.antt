-- ===== src/CartModal/Seller.antt =====
-- The button of front/src/components/CartModal.tsx that asks for a seller. The timers that take a
-- message away again are not modelled, and the sign ⚠ stands without its invisible variation selector.
pub mod Request
use go_moda_mayor.Prelude.{
  ℕ, zero, suc, Bool, true, false, ◌&&◌, ◌||◌, Option, none, some, List, [], ◌∷◌, ◌++◌, String, ltb,
  if◌then◌else◌, truthy, text_or, get_or, or_else, concat,
}
use go_moda_mayor.Prelude.Decimal.{show_ℕ}
use go_moda_mayor.Net.{Reply, failed, refused, garbled, accepted, bearer}
use go_moda_mayor.Orders.{Spelled}
use go_moda_mayor.Cart.{CartState, fetch_cart}

abbrev pub min_wholesale_quantity : ℕ
min_wholesale_quantity = 6

-- What the window shares with the hook of the cart (`shared`, with the storage's token), the stored
-- user, what the window shows, and what was alerted and requested (the path, less the server's, and
-- the header `Authorization`), in order.
pub record SellerState (C : Type 0) : Type 0 where
  pub shared : CartState C
  pub stored_user : Option String
  pub requesting_seller : Bool
  pub info_message : Option String
  pub show_add_address_modal : Bool
  pub show_seller_requested_modal : Bool
  pub seller_name : String
  pub alerts : List String
  pub asked : List (String × String)
  pub posted : List (String × Option String)

-- The answers to the three requests: the number of addresses, unless the JSON is null, the name of
-- the seller, and the cart.
pub record Answers (C : Type 0) : Type 0 where
  pub addresses : Reply (Option ℕ)
  pub assignment : Reply (Option String)
  pub cart : Reply C

-- A number in a template text.
abbrev id_text : Option ℕ → String
id_text none = "undefined"
id_text (some n) = show_ℕ n

-- `token ? { Authorization } : undefined`
abbrev header : Option String → Option String
header token = if truthy token then some (bearer token) else none

module _ {C : Type 0} (answers : Answers C) where
  -- The `catch`, with the `finally`.
  abbrev fail : SellerState C → SellerState C
  fail s = record s {
    alerts = s.alerts ++ ("Error en la solicitud" ∷ []);
    requesting_seller = false;
  }

  -- A message in place of a request.
  abbrev wants_address : String → SellerState C → SellerState C
  wants_address message s = record s {
    info_message = some message;
    show_add_address_modal = true;
    requesting_seller = false;
  }

  after_assignment : Reply (Option String) → SellerState C → SellerState C
  after_assignment (failed m) s = fail s
  after_assignment (refused status error) s = record s {
    info_message = some (text_or error "No se pudo solicitar vendedora");
    requesting_seller = false;
  }
  after_assignment (garbled m) s = fail s
  after_assignment (accepted name) s = record s {
    seller_name = text_or name "una vendedora";
    shared = fetch_cart answers.cart s.shared;
    show_seller_requested_modal = true;
    requesting_seller = false;
  }

  request_assignment : ℕ → SellerState C → SellerState C
  unfolding after_assignment
  request_assignment cart_id s = after_assignment answers.assignment (record s {
    requesting_seller = true;
    posted =
        s.posted
        ++ ((
          concat ("/checkout/" ∷ show_ℕ cart_id ∷ "/request-assignment" ∷ []),
          header s.shared.token,
        )
            ∷ []);
  })

  after_addresses : ℕ → Reply (Option ℕ) → SellerState C → SellerState C
  unfolding request_assignment
  after_addresses cart_id (failed m) s = fail s
  after_addresses cart_id (refused status error) s =
      wants_address "⚠ Error al verificar direcciones. Por favor, agregá una dirección de envío." s
  after_addresses cart_id (garbled m) s = fail s
  after_addresses cart_id (accepted none) s =
      wants_address "⚠ Necesitás agregar una dirección de envío antes de solicitar vendedora" s
  after_addresses cart_id (accepted (some zero)) s =
      wants_address "⚠ Necesitás agregar una dirección de envío antes de solicitar vendedora" s
  after_addresses cart_id (accepted (some (suc k))) s = request_assignment cart_id s

  -- The stored user's `id`, unless reading it throws.
  after_user : ℕ → Option (Option ℕ) → SellerState C → SellerState C
  unfolding after_addresses
  after_user cart_id none s = fail s
  after_user cart_id (some user_id) s = after_addresses cart_id answers.addresses (record s {
    asked =
        s.asked
        ++ ((concat ("/addresses/user/" ∷ id_text user_id ∷ []), bearer s.shared.token) ∷ []);
  })

  -- `parse_id` is `JSON.parse(...).id`, and `none` if that throws.
  module _ (parse_id : String → Option (Option ℕ)) (ids : C → Spelled ℕ) where
    with_cart_id : Option ℕ → SellerState C → SellerState C
    unfolding after_user request_assignment
    with_cart_id none s = s
    with_cart_id (some zero) s = s
    with_cart_id (some (suc k)) s =
        if truthy s.stored_user && truthy s.shared.token
        then after_user (suc k) (parse_id (get_or s.stored_user "")) s
        else request_assignment (suc k) s

    with_cart : Option C → SellerState C → SellerState C
    unfolding with_cart_id
    with_cart none s = s
    with_cart (some c) s = with_cart_id (or_else (ids c).lower (ids c).upper) s

    -- A click, which does nothing while the button is disabled.
    pub click_request_seller : ℕ → SellerState C → SellerState C
    unfolding with_cart
    click_request_seller confirmed s =
        if s.requesting_seller || ltb confirmed min_wholesale_quantity
        then s
        else with_cart s.shared.cart s
