-- ===== src/GuestCart.antt =====
-- front/src/utils/guestCart.ts: the cart of a visitor, kept as JSON text in `localStorage`. What the
-- browser gives (JSON, the storage's quota) is the instance `Store`; `Migrate` has the migration.
pub mod Items
pub mod Keys
pub mod Refine
pub mod Shelf
pub mod Quantity
pub mod Migrate
mod Tests
use go_moda_mayor.Prelude.{
  ℕ, ◌≡◌, Bool, true, false, not, ◌&&◌, Option, none, some, List, [], ◌∷◌, ◌++◌, map, String, ◌==◌,
  if◌then◌else◌, keep, find, is_some, get_or,
}
use go_moda_mayor.Prelude.Int.{ℤ, pos, ◌+ℤ◌, leb_ℤ}
use go_moda_mayor.GuestCart.Items.{GuestCartItem, is_key, add_item, set_quantity, clean}

-- The browser: JSON texts of carts, which of them the storage has room for, and the empty text.
pub record Store (F T : Type 0) : Type 0 where
  pub stringify : List (GuestCartItem F) → T
  pub parse : T → Option (List (GuestCartItem F))
  pub is_empty : T → Bool
  pub accepts : T → Bool

-- What the standard says of JSON: `parse` gives back what `stringify` wrote, less the properties
-- that are undefined, and no text that it writes is empty.
pub record IsJson (F T : Type 0) (s : Store F T) : Type 0 where
  pub parse-stringify :
      (items : List (GuestCartItem F)) → s.parse (s.stringify items) ≡ some (map clean items)
  pub stringify_nonempty : (items : List (GuestCartItem F)) → s.is_empty (s.stringify items) ≡ false

-- `has_window` is false on the server. `stored` is the item `guest_cart` of the storage, and
-- `events` the details of the events `guest-cart-updated`, the oldest first.
pub record Browser (F T : Type 0) : Type 0 where
  pub has_window : Bool
  pub stored : Option T
  pub events : List (List (GuestCartItem F))

module _ {F T : Type 0} ⦃s : Store F T⦄ where
  open s use {stringify, parse, is_empty, accepts}

  read : Option T → List (GuestCartItem F)
  read none = []
  read (some text) = if is_empty text then [] else get_or (parse text) []

  unfoldable pub get_guest_cart : Browser F T → List (GuestCartItem F)
  unfolding read
  get_guest_cart b = if b.has_window then read b.stored else []

  -- If the storage refuses the text, nothing is stored and no event is sent.
  pub set_guest_cart : List (GuestCartItem F) → Browser F T → Browser F T
  set_guest_cart items b =
      if b.has_window && accepts (stringify items)
      then record b { stored = some (stringify items); events = b.events ++ items ∷ [] }
      else b

  pub add_to_guest_cart : GuestCartItem F → Browser F T → Browser F T
  add_to_guest_cart item b = set_guest_cart (add_item item (get_guest_cart b)) b

  pub remove_from_guest_cart : ℕ → ℕ → Browser F T → Browser F T
  remove_from_guest_cart product variant b =
      set_guest_cart (keep (λ i. not (is_key product variant i)) (get_guest_cart b)) b

  -- `item` is shared with the cart that is stored: setting its quantity changes the first match.
  pub update_guest_cart_quantity : ℕ → ℕ → ℤ → Browser F T → Browser F T
  update_guest_cart_quantity product variant quantity b =
      if is_some (find (is_key product variant) (get_guest_cart b))
      then if leb_ℤ quantity (pos 0)
        then remove_from_guest_cart product variant b
        else set_guest_cart (set_quantity product variant quantity (get_guest_cart b)) b
      else b

  pub clear_guest_cart : Browser F T → Browser F T
  clear_guest_cart b =
      if b.has_window then record b { stored = none; events = b.events ++ [] ∷ [] } else b

module _ {F : Type 0} where
  -- The `reduce` of `getGuestCartItemCount`, from its running sum.
  pub sum_quantities : ℤ → List (GuestCartItem F) → ℤ
  sum_quantities sum [] = sum
  sum_quantities sum (i ∷ is) = sum_quantities (sum +ℤ i.quantity) is

pub get_guest_cart_item_count : {F T : Type 0} ⦃s : Store F T⦄ → Browser F T → ℤ
get_guest_cart_item_count b = sum_quantities (pos 0) (get_guest_cart b)
