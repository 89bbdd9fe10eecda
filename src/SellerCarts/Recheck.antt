-- ===== src/SellerCarts/Recheck.antt =====
-- "Rechequear stock en depósito" of front/src/app/vendedora/carritos/page.tsx: the stock of the
-- confirmed items is asked for again, one item after the other.
pub mod Alerts
use go_moda_mayor.Prelude.{
  ℕ, suc, Bool, true, false, not, ◌||◌, Option, none, some, List, [], ◌∷◌, ◌++◌, map, String, ◌==◌,
  if◌then◌else◌, str_eq, truthy, text_or, get_or, or_else, concat, find,
}
use go_moda_mayor.Prelude.Decimal.{show_ℕ}
use go_moda_mayor.Prelude.Int.{ℤ, pos, negsuc, ltb_ℤ}
use go_moda_mayor.Net.{Reply, failed, refused, garbled, accepted}
use go_moda_mayor.SellerCarts.{SellerPage, ModalType, success, warning, show_modal}
use go_moda_mayor.SellerCarts.Items.{
  CartItem, ItemVariant, StockRow, StockAnswer, stocks_of, lower_first, available,
}

-- What the language gives of texts: `toUpperCase`, `toLowerCase`, `charAt(0)` and `slice(1)`.
pub record Letters : Type 0 where
  pub to_upper_case : String → String
  pub to_lower_case : String → String
  pub char_at_zero : String → String
  pub slice_one : String → String

module _ (l : Letters) where
  color_part : Option String → List String
  color_part none = []
  color_part (some color) =
      if str_eq color ""
      then []
      else if str_eq color "UNICO"
      then "Color único" ∷ []
      else concat
          (l.to_upper_case (l.char_at_zero color) ∷ l.to_lower_case (l.slice_one color) ∷ [])
        ∷ []

  size_part : Option String → List String
  size_part none = []
  size_part (some size) =
      if str_eq size ""
      then []
      else if str_eq size "UNICO"
      then "Talle único" ∷ []
      else concat ("T. " ∷ size ∷ []) ∷ []

  -- The parts with a comma between, or the code, if there are none.
  joined : List String → Option String → String
  joined [] sku = text_or sku "Sin variante"
  joined (a ∷ []) sku = a
  joined (a ∷ b ∷ rest) sku = concat (a ∷ ", " ∷ joined (b ∷ rest) sku ∷ [])

  pub format_variant : Option ItemVariant → String
  unfolding color_part size_part joined
  format_variant none = "N/A"
  format_variant (some v) = joined (color_part v.color ++ size_part v.size) v.sku

-- An item that is short, with what is available of it, and where.
pub record Short : Type 0 where
  pub item : CartItem
  pub available : ℤ
  pub location : String

pub record RecheckPage : Type 0 where
  pub page : SellerPage
  pub selected_location_map : ℕ → Option String
  pub confirmed_stock_alerts : String → Option (ℤ × String)

abbrev pub alert_key : CartItem → String
alert_key it = concat (show_ℕ it.product_id ∷ "-" ∷ show_ℕ it.variant_id ∷ [])

-- The item's place, or else the one that is chosen for the cart, or else "deposito".
pub confirmed_location : Option String → CartItem → String
confirmed_location selected it = text_or (lower_first it.location) (text_or selected "deposito")

abbrev pub is_at : String → StockRow → Bool
is_at place r = holds (lower_first r.location)
  where
    holds : Option String → Bool
    holds none = false
    holds (some p) = str_eq p place

-- What is collected: the items that are short, the last first, and the alerts.
abbrev pub Found : Type 0
Found = List Short × (String → Option (ℤ × String))

add_short : CartItem → ℤ → String → Found → Found
add_short it n place (out_of_stock, alerts) = (
  record { item = it; available = n; location = place } ∷ out_of_stock,
  λ k. if str_eq k (alert_key it) then some (n, place) else alerts k,
)

-- `!loc || available < (it.quantity || 1)`
check_row : CartItem → String → Option StockRow → Found → Found
unfolding add_short
check_row it place none found = add_short it (pos 0) place found
check_row it place (some r) found =
    if ltb_ℤ (available r) (pos (if it.quantity == 0 then 1 else it.quantity))
    then add_short it (available r) place found
    else found

check_item : Option String → CartItem → Reply StockAnswer → Found → Found
unfolding check_row
check_item selected it (failed m) found = found
check_item selected it (refused status e) found = found
check_item selected it (garbled m) found = found
check_item selected it (accepted a) found =
    let place = confirmed_location selected it in
    check_row it place (find (is_at place) (stocks_of a)) found

-- The loop, with what the server answers for each variant.
check_items : Option String → (ℕ → Reply StockAnswer) → List CartItem → Found → Found
unfolding check_item
check_items selected stock [] found = found
check_items selected stock (it ∷ items) found =
    check_items selected stock items (check_item selected it (stock it.variant_id) found)

show_ℤ : ℤ → String
show_ℤ (pos n) = show_ℕ n
show_ℤ (negsuc n) = concat ("-" ∷ show_ℕ (suc n) ∷ [])

module _ (l : Letters) where
  line_of : Short → String
  line_of s = concat (
      "• "
      ∷ get_or s.item.product_name "Producto"
      ∷ " (Variante: "
      ∷ format_variant l s.item.variant
      ∷ ") en "
      ∷ s.location
      ∷ ": solicitado "
      ∷ show_ℕ s.item.quantity
      ∷ ", disponible "
      ∷ show_ℤ s.available
      ∷ [])

  -- The lines, of which the last comes first.
  lines : List Short → String
  unfolding line_of
  lines [] = ""
  lines (s ∷ []) = line_of s
  lines (s ∷ t ∷ rest) = concat (lines (t ∷ rest) ∷ "\n" ∷ line_of s ∷ [])

  report : Found → RecheckPage → RecheckPage
  unfolding lines
  report ([], alerts) s = record s {
    confirmed_stock_alerts = λ k. none;
    page =
        show_modal success "Todos los productos confirmados tienen stock suficiente en depósito."
          s.page;
  }
  report (x ∷ xs, alerts) s = record s {
    confirmed_stock_alerts = alerts;
    page =
        show_modal warning
          (concat (
            "Los siguientes productos no tienen stock suficiente en la ubicación confirmada:\n\n"
            ∷ lines (x ∷ xs)
            ∷ "\n\nEliminalos o selecciona otra ubicación para continuar."
            ∷ []))
          s.page;
  }

  pub recheck : ℕ → (ℕ → Reply StockAnswer) → List CartItem → RecheckPage → RecheckPage
  unfolding report check_items
  recheck cart_id stock confirmed s =
      report (check_items (s.selected_location_map cart_id) stock confirmed ([], λ k. none)) s
