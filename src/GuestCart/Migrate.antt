-- ===== src/GuestCart/Migrate.antt =====
-- `migrateGuestCartToServer` of front/src/utils/guestCart.ts: the visitor's items are posted to the
-- server one by one after a login, and then the visitor's cart is cleared.
pub mod Report
use go_moda_mayor.Prelude.{
  ℕ, ◌+◌, ◌≡◌, refl, Bool, true, false, Option, none, some, List, [], ◌∷◌, ◌++◌, map, String, arith,
  if◌then◌else◌, inl, inr, Bool-cases, length, length-append, concat, text_or, truthy, sym, ◌∙◌,
}
use go_moda_mayor.Prelude.Int.{ℤ}
use go_moda_mayor.GuestCart.{Store, Browser, get_guest_cart, clear_guest_cart}
use go_moda_mayor.GuestCart.Items.{GuestCartItem, Metadata, Property, absent, undef, value}

-- What `POST /cart/add` comes to: an answer that is `ok`, one that is not, with the `error` of its
-- body if that is JSON and has one, or a rejected `fetch`.
pub data AddReply : Type 0 where
  added : AddReply
  refused : Option String → AddReply
  no_connection : AddReply

pub record AddRequest : Type 0 where
  pub authorization : String
  pub product_id : ℕ
  pub variant_id : ℕ
  pub quantity : ℤ

pub record MigrationResult : Type 0 where
  pub total_items : ℕ
  pub success_count : ℕ
  pub error_count : ℕ
  pub items_added : List String
  pub errors : List String

abbrev pub of_property : Property String → Option String
of_property absent = none
of_property undef = none
of_property (value s) = some s

module _ {F : Type 0} where
  abbrev item_name : Option (Metadata F) → String
  item_name none = "Producto"
  item_name (some m) = text_or (of_property m.product_name) "Producto"

  abbrev variant_name : Option (Metadata F) → String
  variant_name none = ""
  variant_name (some m) = text_or (of_property m.variant_name) ""

  display_name : GuestCartItem F → String
  display_name i =
      if truthy (some (variant_name i.metadata))
      then concat (item_name i.metadata ∷ " (" ∷ variant_name i.metadata ∷ ")" ∷ [])
      else item_name i.metadata

  abbrev pub add_request : String → GuestCartItem F → AddRequest
  add_request token i = record {
    authorization = concat ("Bearer " ∷ token ∷ []);
    product_id = i.product_id;
    variant_id = i.variant_id;
    quantity = i.quantity;
  }

  -- What one round of the loop pushes: an added item, or an error.
  pub outcome : GuestCartItem F → AddReply → List String × List String
  unfolding display_name
  outcome i added = (display_name i ∷ [], [])
  outcome i (refused error) =
      ([], concat (display_name i ∷ ": " ∷ text_or error "Error desconocido" ∷ []) ∷ [])
  outcome i no_connection = ([], concat (item_name i.metadata ∷ ": Error de conexión" ∷ []) ∷ [])

  -- The loop: `reply k` answers the k-th request, and the requests are kept in the order of sending.
  pub migrate_items :
      String
      → (ℕ → AddReply)
      → ℕ
      → List (GuestCartItem F)
      → List String
      → List String
      → List AddRequest
      → List String × List String × List AddRequest
  migrate_items token reply k [] names errors sent = (names, errors, sent)
  migrate_items token reply k (i ∷ is) names errors sent =
      migrate_items token reply (k + 1) is (names ++ (outcome i (reply k)).0)
        (errors ++ (outcome i (reply k)).1) (sent ++ add_request token i ∷ [])

abbrev pub summary : ℕ → List String × List String × List AddRequest → MigrationResult
summary total (names, errors, sent) = record {
  total_items = total;
  success_count = length names;
  error_count = length errors;
  items_added = names;
  errors = errors;
}

module _ {F T : Type 0} ⦃s : Store F T⦄ where
  pub finish :
      String
      → (ℕ → AddReply)
      → List (GuestCartItem F)
      → Browser F T
      → MigrationResult × List AddRequest × Browser F T
  finish token reply [] b = (summary 0 ([], [], []), [], b)
  finish token reply (i ∷ is) b =
      let done = migrate_items token reply 0 (i ∷ is) [] [] [] in
      (summary (length (i ∷ is)) done, done.2, clear_guest_cart b)

  pub migrate_guest_cart_to_server :
      String → (ℕ → AddReply) → Browser F T → MigrationResult × List AddRequest × Browser F T
  unfolding finish
  migrate_guest_cart_to_server token reply b = finish token reply (get_guest_cart b) b
