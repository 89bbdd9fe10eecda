-- ===== src/Checkout.antt =====
-- front/src/app/checkout/page.tsx: the cart that is about to be ordered, and its confirmation.
pub mod Visit
mod Tests
use go_moda_mayor.Prelude.{
  ℕ, Bool, true, false, Option, none, some, List, [], ◌∷◌, ◌++◌, map, String, ◌==◌, if◌then◌else◌,
  truthy, text_or, get_or, concat, find,
}
use go_moda_mayor.Prelude.Decimal.{show_ℕ}
use go_moda_mayor.Net.{Reply, Ack, failed, refused, garbled, accepted, acked, bearer}
use go_moda_mayor.Pricing.{Number}
use go_moda_mayor.Orders.{Spelled}
use go_moda_mayor.Summary.{CartSummary, CartItemSummary, SummaryTier, NextTier}

-- An item as far as the page reads it; `name` and `wholesale_price` are the product's.
pub record CheckoutItem (F : Type 0) : Type 0 where
  pub id : ℕ
  pub quantity : Option ℕ
  pub name : Option String
  pub wholesale_price : Option F

pub record CheckoutCart (F : Type 0) : Type 0 where
  pub id : Spelled ℕ
  pub items : Option (List (CheckoutItem F))

-- The page, the token of the storage, and what was pushed to the router, alerted and posted (the
-- URL, less the server's, and the header `Authorization`), each in order.
pub record CheckoutState (F : Type 0) : Type 0 where
  pub cart : Option (CheckoutCart F)
  pub loading : Bool
  pub error : Option String
  pub processing : Bool
  pub token : Option String
  pub pushed : List String
  pub alerts : List String
  pub posted : List (String × String)

-- `cart?.id || cart?.ID` in a template text.
abbrev id_text : Option ℕ → String
id_text none = "undefined"
id_text (some n) = show_ℕ n

abbrev or_upper : Option ℕ → Option ℕ → Option ℕ
or_upper none upper = upper
or_upper (some n) upper = if n == 0 then upper else some n

module _ {F : Type 0} where
  -- The JSON of an answer may be null.
  after_cart : Reply (Option (CheckoutCart F)) → CheckoutState F → CheckoutState F
  after_cart (failed m) s = record s { error = some m; loading = false }
  after_cart (refused status error) s = record s {
    error = some "Error al cargar el carrito";
    loading = false;
  }
  after_cart (garbled m) s = record s { error = some m; loading = false }
  after_cart (accepted c) s = record s { cart = c; loading = false }

  pub fetch_cart : Reply (Option (CheckoutCart F)) → CheckoutState F → CheckoutState F
  unfolding after_cart
  fetch_cart reply s =
      if truthy s.token
      then after_cart reply s
      else record s { pushed = s.pushed ++ ("/login" ∷ []); loading = false }

  abbrev cart_id : Option (CheckoutCart F) → Option ℕ
  cart_id none = none
  cart_id (some c) = or_upper c.id.lower c.id.upper

  -- The path of the request that completes the order of a cart.
  pub complete_path : Option (CheckoutCart F) → String
  complete_path cart = concat ("/checkout/" ∷ id_text (cart_id cart) ∷ "/complete" ∷ [])

  after_confirm : Ack → CheckoutState F → CheckoutState F
  after_confirm (failed m) s = record s { alerts = s.alerts ++ (m ∷ []); processing = false }
  after_confirm (refused status error) s = record s {
    alerts = s.alerts ++ (text_or error "Error al confirmar la orden" ∷ []);
    processing = false;
  }
  after_confirm acked s = record s {
    alerts = s.alerts ++ ("¡Orden confirmada exitosamente!" ∷ []);
    pushed = s.pushed ++ ("/profile" ∷ []);
    processing = false;
  }

  pub handle_confirm_order : Ack → CheckoutState F → CheckoutState F
  unfolding after_confirm
  handle_confirm_order ack s = after_confirm ack (record s {
    processing = true;
    posted = s.posted ++ ((complete_path s.cart, bearer s.token) ∷ []);
  })

-- A line of the order, with the unit price and the amount.
pub record Line (F : Type 0) : Type 0 where
  pub id : ℕ
  pub name : Option String
  pub quantity : ℕ
  pub unit_price : F
  pub amount : F

-- What the page shows.
pub data View (F : Type 0) : Type 0 where
  spinner : View F
  failure : String → View F
  empty_cart : View F
  -- The lines, the total, the tier with the next one, and whether the button is disabled.
  order : List (Line F) → F → Option (SummaryTier F × Option NextTier) → Bool → View F

module _ {F : Type 0} where
  abbrev pub items_of : Option (CheckoutCart F) → List (CheckoutItem F)
  items_of none = []
  items_of (some c) = get_or c.items []

module _ {F : Type 0} ⦃n : Number F⦄ where
  -- `a || d` on numbers.
  or_value : Option F → F → F
  or_value none d = d
  or_value (some a) d = if n.is_truthy a then a else d

  abbrev summary_items : Option (CartSummary F) → List (CartItemSummary F)
  summary_items none = []
  summary_items (some s) = s.items

  abbrev unit_price_of : Option (CartItemSummary F) → Option F
  unit_price_of none = none
  unit_price_of (some si) = some si.unit_price

  -- `zero` is the number 0 and `number` makes a quantity a number.
  module _ (zero : F) (number : ℕ → F) where
    pub unit_price : Option (CartSummary F) → CheckoutItem F → F
    unfolding or_value
    unit_price summary item =
        or_value (unit_price_of (find (λ si. si.cart_item_id == item.id) (summary_items summary)))
          (or_value item.wholesale_price zero)

    pub line : Option (CartSummary F) → CheckoutItem F → Line F
    line summary item =
        let price = unit_price summary item in
        let quantity = get_or item.quantity 0 in
        record {
          id = item.id;
          name = item.name;
          quantity = quantity;
          unit_price = price;
          amount = n.mul price (number quantity);
        }

    abbrev subtotal_of : Option (CartSummary F) → Option F
    subtotal_of none = none
    subtotal_of (some s) = some s.subtotal

    abbrev tiers_of : Option (CartSummary F) → Option (SummaryTier F × Option NextTier)
    tiers_of none = none
    tiers_of (some s) = elim s.tier [ none ↦ none | some t ↦ some (t, s.next_tier) ]

    items_view : Option (CartSummary F) → Bool → List (CheckoutItem F) → View F
    unfolding or_value
    items_view summary processing [] = empty_cart
    items_view summary processing (x ∷ xs) =
        order (map (line summary) (x ∷ xs)) (or_value (subtotal_of summary) zero) (tiers_of summary)
          processing

    pub view : Option (CartSummary F) → CheckoutState F → View F
    unfolding items_view
    view summary s =
        if s.loading
        then spinner
        else if truthy s.error
        then failure (get_or s.error "")
        else items_view summary s.processing (items_of s.cart)
