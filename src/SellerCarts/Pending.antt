-- ===== src/SellerCarts/Pending.antt =====
-- The pending items of front/src/app/vendedora/carritos/page.tsx: the places where an item is in stock
-- are looked up, one of them is chosen, and the item is confirmed and reserved there.
pub mod Covered
pub mod Reserved
use go_moda_mayor.Prelude.{
  ℕ, Bool, true, false, not, ◌&&◌, Option, none, some, List, [], ◌∷◌, ◌++◌, String, if◌then◌else◌,
  str_eq, text_or, get_or, concat, get_elem?,
}
use go_moda_mayor.Prelude.Decimal.{show_ℕ}
use go_moda_mayor.Net.{Reply, Ack, failed, refused, garbled, accepted, acked}
use go_moda_mayor.SellerCarts.{
  SellerCart, SellerPage, ModalType, success, error, confirm, show_modal, fetch_carts,
}
use go_moda_mayor.SellerCarts.Items.{
  CartItem, StockRow, StockAnswer, stocks_of, lower_first, has_enough,
}

-- The request that confirms an item, and that which removes it.
pub data PendingRequest : Type 0 where
  reserve : ℕ → ℕ → ℕ → String → PendingRequest
  remove : ℕ → ℕ → ℕ → PendingRequest

-- What is kept for each key; a missing one is `none`, or `false` for `showing_locations`.
pub record PendingPage : Type 0 where
  pub page : SellerPage
  pub pending_item_locations : String → Option (List StockRow)
  pub showing_locations : String → Bool
  pub selected_pending_locations : String → Option String
  pub requested : List PendingRequest

-- `{ ...m, [key]: v }`
abbrev pub set_at {ℓ} : {A : Type ℓ} → String → A → (String → A) → String → A
set_at key v m k = if str_eq k key then v else m k

abbrev say : ModalType → String → PendingPage → PendingPage
say type message s = record s { page = show_modal type message s.page }

unfoldable pub item_key : ℕ → CartItem → String
item_key cart_id it =
    concat
      ("pending-" ∷ show_ℕ cart_id ∷ "-" ∷ show_ℕ it.product_id ∷ "-" ∷ show_ℕ it.variant_id ∷ [])

abbrev pub is_listed : Option (List StockRow) → Bool
is_listed none = false
is_listed (some []) = false
is_listed (some (r ∷ rs)) = true

module _ (cart_id : ℕ) (it : CartItem) where
  -- "Ver ubicaciones disponibles", a button that is there while the places are not shown.
  after_places : Reply StockAnswer → PendingPage → PendingPage
  after_places (failed m) s = say error "Error al consultar ubicaciones" s
  after_places (refused status e) s = say error "No se pudo consultar stock" s
  after_places (garbled m) s = say error "Error al consultar ubicaciones" s
  after_places (accepted a) s = record s {
    pending_item_locations =
        set_at (item_key cart_id it) (some (stocks_of a)) s.pending_item_locations;
    showing_locations = set_at (item_key cart_id it) true s.showing_locations;
  }

  unfoldable pub see_places : Reply StockAnswer → PendingPage → PendingPage
  unfolding after_places
  see_places reply s = if s.showing_locations (item_key cart_id it) then s else after_places reply s

  -- A click on a row, which chooses its place if there is enough.
  choose_row : Option StockRow → PendingPage → PendingPage
  choose_row none s = s
  choose_row (some r) s =
      if has_enough it.quantity r
      then record s {
        selected_pending_locations =
            set_at (item_key cart_id it) (lower_first r.location) s.selected_pending_locations;
      }
      else s

  -- The row with the number `i` of those that are shown, if they are.
  unfoldable pub choose : ℕ → PendingPage → PendingPage
  unfolding choose_row
  choose i s =
      if s.showing_locations (item_key cart_id it)
      then choose_row (get_elem? (get_or (s.pending_item_locations (item_key cart_id it)) []) i) s
      else s

  hide : PendingPage → PendingPage
  hide s = record s {
    showing_locations = set_at (item_key cart_id it) false s.showing_locations;
    selected_pending_locations = set_at (item_key cart_id it) none s.selected_pending_locations;
  }

  -- "Cancelar", while the places are shown.
  pub cancel : PendingPage → PendingPage
  unfolding hide
  cancel s = if s.showing_locations (item_key cart_id it) then hide s else s

  fetched : Reply (Option (List SellerCart)) → PendingPage → PendingPage
  fetched carts s = record s { page = fetch_carts carts s.page }

  forget : PendingPage → PendingPage
  unfolding hide
  forget s = record (hide s) {
    pending_item_locations = set_at (item_key cart_id it) none s.pending_item_locations;
  }

  after_confirm : String → Ack → Reply (Option (List SellerCart)) → PendingPage → PendingPage
  unfolding fetched forget
  after_confirm place (failed m) carts s = say error "Error al confirmar stock" s
  after_confirm place (refused status e) carts s =
      say error (text_or e "No se pudo confirmar y reservar") s
  after_confirm place acked carts s =
      fetched carts
        (forget (say success (concat ("Producto confirmado y reservado en " ∷ place ∷ [])) s))

  -- A place that is chosen and not empty.
  confirm_at : Option String → Ack → Reply (Option (List SellerCart)) → PendingPage → PendingPage
  unfolding after_confirm
  confirm_at none reply carts s = s
  confirm_at (some place) reply carts s =
      if str_eq place ""
      then s
      else after_confirm place reply carts (record s {
        requested = s.requested ++ (reserve it.product_id it.variant_id cart_id place ∷ []);
      })

  -- "Confirmar stock", a button that is there while the places are shown, are not none, and one is
  -- chosen.
  unfoldable pub confirm_stock : Ack → Reply (Option (List SellerCart)) → PendingPage → PendingPage
  unfolding confirm_at
  confirm_stock reply carts s =
      if s.showing_locations (item_key cart_id it)
        && is_listed (s.pending_item_locations (item_key cart_id it))
      then confirm_at (s.selected_pending_locations (item_key cart_id it)) reply carts s
      else s

  after_remove : Ack → Reply (Option (List SellerCart)) → PendingPage → PendingPage
  unfolding fetched
  after_remove (failed m) carts s = say error "Error al eliminar producto" s
  after_remove (refused status e) carts s =
      say error (text_or e "No se pudo eliminar el producto") s
  after_remove acked carts s =
      fetched carts (say success "El producto pendiente fue eliminado de la orden" s)

  -- "No agregar", while the places are not shown, and what the user answers to the question.
  pub reject : Bool → Ack → Reply (Option (List SellerCart)) → PendingPage → PendingPage
  unfolding after_remove
  reject confirmed reply carts s =
      if s.showing_locations (item_key cart_id it)
      then s
      else answer confirmed (
          say confirm
            "¿Estás segura de que NO deseas agregar este producto? Se eliminará de la orden." s)
    where
      answer : Bool → PendingPage → PendingPage
      answer false s = s
      answer true s = after_remove reply carts (record s {
        requested = s.requested ++ (remove it.product_id it.variant_id cart_id ∷ []);
      })

-- What a seller does about a pending item.
pub data PendingAction : Type 0 where
  see : Reply StockAnswer → PendingAction
  choice : ℕ → PendingAction
  cancelled : PendingAction
  confirmation : Ack → Reply (Option (List SellerCart)) → PendingAction
  rejection : Bool → Ack → Reply (Option (List SellerCart)) → PendingAction

unfoldable pub act : ℕ → CartItem → PendingAction → PendingPage → PendingPage
act cart_id it (see reply) s = see_places cart_id it reply s
act cart_id it (choice i) s = choose cart_id it i s
act cart_id it cancelled s = cancel cart_id it s
act cart_id it (confirmation reply carts) s = confirm_stock cart_id it reply carts s
act cart_id it (rejection confirmed reply carts) s = reject cart_id it confirmed reply carts s

unfoldable pub act_all : List (ℕ × CartItem × PendingAction) → PendingPage → PendingPage
act_all [] s = s
act_all ((cart_id, it, a) ∷ rest) s = act_all rest (act cart_id it a s)
