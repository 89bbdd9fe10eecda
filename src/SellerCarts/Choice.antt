-- ===== src/SellerCarts/Choice.antt =====
-- How front/src/app/vendedora/carritos/page.tsx searches for a product, chooses a variant and a place,
-- and adds them to a cart.
pub mod Left
use go_moda_mayor.Prelude.{
  ℕ, zero, suc, Bool, true, false, not, ◌&&◌, ◌||◌, Option, none, some, List, [], ◌∷◌, ◌++◌, String,
  ltb, ◌==◌, if◌then◌else◌, str_eq, text_or, get_or, or_else, find, take,
}
use go_moda_mayor.Prelude.Int.{pos, ltb_ℤ}
use go_moda_mayor.Net.{Reply, Ack, failed, refused, garbled, accepted, acked}
use go_moda_mayor.Orders.{Spelled}
use go_moda_mayor.SellerCarts.{
  SellerCart, SellerPage, ModalType, success, warning, error, show_modal, fetch_carts,
}
use go_moda_mayor.SellerCarts.Items.{StockRow, StockAnswer, stocks_of, lower_first}

pub record FoundProduct : Type 0 where
  pub id : Spelled ℕ
  pub name : String

-- An answer with products: they are the answer, or its property `items`, if it has it.
pub data ProductAnswer : Type 0 where
  products : List FoundProduct → ProductAnswer
  page_of : Option (List FoundProduct) → ProductAnswer

pub products_of : ProductAnswer → List FoundProduct
products_of (products ps) = ps
products_of (page_of ps) = get_or ps []

-- A request that adds to a cart.
pub record Addition : Type 0 where
  pub cart_id : ℕ
  pub product_id : ℕ
  pub variant_id : ℕ
  pub quantity : ℕ
  pub location : Option String

-- `!n`
abbrev is_zero : ℕ → Bool
is_zero zero = true
is_zero (suc n) = false

-- What is kept of the search and the choice; `V` are the variants that are listed.
pub record ChoicePage (V : Type 0) : Type 0 where
  pub page : SellerPage
  pub search_query : String
  pub show_search_results : Bool
  pub search_results : List FoundProduct
  pub selected_product : Option ℕ
  pub variants : List V
  pub add_qty : ℕ
  pub variant_stocks_map : ℕ → Option (List StockRow)
  pub selected_location_map : ℕ → Option String
  pub selected_variant_map : ℕ → Option ℕ
  pub added : List Addition

-- `{ ...m, [n]: v }`
abbrev pub set_number {ℓ} : {A : Type ℓ} → ℕ → A → (ℕ → A) → ℕ → A
set_number n v m k = if k == n then v else m k

fetched_rows : Reply StockAnswer → List StockRow
fetched_rows (failed m) = []
fetched_rows (refused status e) = []
fetched_rows (garbled m) = []
fetched_rows (accepted a) = stocks_of a

abbrev pub in_stock : StockRow → Bool
in_stock r = ltb_ℤ (pos 0) (get_or (lower_first r.stock) (pos 0))

-- A place that is empty is left out.
pub sent_location : Option String → Option String
sent_location none = none
sent_location (some p) = if str_eq p "" then none else some p

module _ {V : Type 0} where
  after_search : Reply ProductAnswer → ChoicePage V → ChoicePage V
  after_search (failed m) s = record s { search_results = [] }
  after_search (refused status e) s = s
  after_search (garbled m) s = record s { search_results = [] }
  after_search (accepted a) s = record s {
    search_results = take 10 (products_of a);
    show_search_results = true;
  }

  -- A text that is typed in the search field; `length_of` is the language's `length` of a text.
  pub search_products : (String → ℕ) → String → Reply ProductAnswer → ChoicePage V → ChoicePage V
  unfolding after_search
  search_products length_of query reply s =
      let typed = record s { search_query = query } in
      if str_eq query "" || ltb (length_of query) 2
      then record typed { search_results = []; show_search_results = false }
      else after_search reply typed

  -- The answer is none if it is no list.
  variants_of : Reply (Option (List V)) → List V
  variants_of (failed m) = []
  variants_of (refused status e) = []
  variants_of (garbled m) = []
  variants_of (accepted vs) = get_or vs []

  pub on_select_product : ℕ → Reply (Option (List V)) → ChoicePage V → ChoicePage V
  unfolding variants_of
  on_select_product id reply s = record s {
    selected_product = some id;
    variants = variants_of reply;
  }

  -- A click on a product that was found.
  pub click_product : ℕ → String → Reply (Option (List V)) → ChoicePage V → ChoicePage V
  click_product id name reply s = record (on_select_product id reply s) {
    search_query = name;
    show_search_results = false;
  }

  -- `old` is what is kept of the variant, which is then not asked for again.
  store_rows : Option (List StockRow) → ℕ → Reply StockAnswer → ChoicePage V → ChoicePage V
  unfolding fetched_rows
  store_rows (some old) variant reply s = s
  store_rows none variant reply s = record s {
    variant_stocks_map = set_number variant (some (fetched_rows reply)) s.variant_stocks_map;
  }

  pub fetch_variant_stocks : ℕ → Reply StockAnswer → ChoicePage V → ChoicePage V
  unfolding store_rows
  fetch_variant_stocks variant reply s =
      if is_zero variant then s else store_rows (s.variant_stocks_map variant) variant reply s

  preselect : ℕ → Option (List StockRow) → ChoicePage V → ChoicePage V
  preselect cart_id none s = s
  preselect cart_id (some []) s = s
  preselect cart_id (some (r ∷ rs)) s = record s {
    selected_location_map =
        set_number cart_id (lower_first (get_or (find in_stock (r ∷ rs)) r).location)
          s.selected_location_map;
  }

  -- A variant is chosen: the place is taken from the stocks that were kept before the request.
  pub on_variant_select : ℕ → ℕ → Reply StockAnswer → ChoicePage V → ChoicePage V
  unfolding preselect
  on_variant_select cart_id variant reply s = preselect cart_id (s.variant_stocks_map variant) (
      fetch_variant_stocks variant reply (record s {
        selected_variant_map = set_number cart_id (some variant) s.selected_variant_map;
      }))

  pub change_variant : ℕ → ℕ → Reply StockAnswer → ChoicePage V → ChoicePage V
  change_variant cart_id variant reply s =
      let one = record s { add_qty = 1 } in
      if is_zero variant then one else on_variant_select cart_id variant reply one

  cleared : ChoicePage V → ChoicePage V
  cleared s = record s {
    search_query = "";
    show_search_results = false;
    search_results = [];
    selected_product = none;
    variants = [];
    add_qty = 1;
    selected_location_map = λ k. none;
    selected_variant_map = λ k. none;
  }

  after_add : Ack → Reply (Option (List SellerCart)) → ChoicePage V → ChoicePage V
  unfolding cleared
  after_add (failed m) carts s = record s {
    page = show_modal error "Error al agregar el producto" s.page;
  }
  after_add (refused status e) carts s = record s {
    page = show_modal error (text_or e "No se pudo agregar al carrito") s.page;
  }
  after_add acked carts s = record (cleared s) {
    page =
        fetch_carts carts
          (show_modal success "El producto se agregó correctamente al carrito" s.page);
  }

  pub add_to_cart : ℕ → ℕ → ℕ → Ack → Reply (Option (List SellerCart)) → ChoicePage V → ChoicePage V
  unfolding after_add sent_location
  add_to_cart cart_id product variant reply carts s = after_add reply carts (record s {
    added =
        s.added
        ++ (record {
          cart_id = cart_id;
          product_id = product;
          variant_id = variant;
          quantity = s.add_qty;
          location = sent_location (s.selected_location_map cart_id);
        }
            ∷ []);
  })

  -- "Agregar al carrito"; `field` is the number in the list of variants, or 0.
  pub click_add : ℕ → ℕ → Ack → Reply (Option (List SellerCart)) → ChoicePage V → ChoicePage V
  click_add cart_id field reply carts s =
      let product = get_or s.selected_product 0 in
      let variant = get_or (s.selected_variant_map cart_id) field in
      if is_zero product || is_zero variant
      then record s {
        page = show_modal warning "Por favor busca un producto y selecciona una variante" s.page;
      }
      else add_to_cart cart_id product variant reply carts s
