-- ===== src/Inventory/Tests.antt =====
-- Runs of front/src/app/admin/inventario/page.tsx, and its theorems at concrete inputs.
use go_moda_mayor.Net.{refused, accepted}
use go_moda_mayor.Prelude.{
  ℕ, ◌≡◌, refl, true, not, ◌&&◌, none, some, List, [], ◌∷◌, map, String, ◌==◌, if◌then◌else◌,
  str_eq, keep,
}
use go_moda_mayor.Prelude.Decimal.{show_ℕ}
use go_moda_mayor.Inventory.{
  LocationStock, InventoryVariant, InventoryProduct, InventoryFilters, all, low, product_code,
  get_total_stock_for_product, filtered_products, variant_matches, sum_stock, add_stock,
  get_stock_for_location, stock_of, get_stock_for_location_all_variants,
}
use go_moda_mayor.Prelude.Sort.{sort_by, insert_by}
use go_moda_mayor.Inventory.Shown.{IsShown, filtered_products_lem}
use go_moda_mayor.Inventory.Load.{items, Inquiry, InventoryPage, load_inventory}
use go_moda_mayor.Inventory.Load.Whole.{Loads, load_inventory_lem}
use go_moda_mayor.Inventory.Scan.{Scanner, handle_search_key_down}
use go_moda_mayor.Inventory.Scan.Found.{found_in, opens, handle_search_key_down_lem}

abbrev row : String → ℕ → LocationStock
row place n = record { location = place; stock = n; reserved = 1 }

abbrev variant : ℕ → String → ℕ → InventoryVariant
variant id sku n = record {
  id = id;
  sku = some sku;
  stocks = some (row "deposito" n ∷ row "salta" 2 ∷ []);
}

abbrev product : ℕ → String → List InventoryVariant → InventoryProduct
product id name vs = record {
  id = id;
  name = some name;
  description = none;
  category_id = some 1;
  supplier_id = none;
  variants = some vs;
  stocks = none;
}

abbrev shelf : List InventoryProduct
shelf =
    product 1 "Remera" (variant 7 "REM-R" 6 ∷ variant 8 "REM-A" 1 ∷ [])
    ∷ product 2 "Buzo" (variant 9 "BUZ-R" 3 ∷ [])
    ∷ product 3 "Gorra" []
    ∷ []

padded : ◌≡◌ {A = String} (product_code 37) "PROD-00037"
unfolding product_code show_ℕ
padded = refl

abbrev few : InventoryFilters
few = record {
  search_query = "";
  selected_location = "deposito";
  selected_category = none;
  selected_supplier = none;
  stock_filter = low;
  low_stock_threshold = 10;
}

lowest_first : map (λ p. p.id) (filtered_products (λ s. s) few shelf) ≡ 2 ∷ 1 ∷ []
unfolding filtered_products get_stock_for_location_all_variants sum_stock add_stock
    get_stock_for_location stock_of sort_by insert_by
lowest_first = refl

filtered_products_lem_example :
    IsShown
      (λ s. s)
      few
      (λ p. get_total_stock_for_product p "deposito")
      low
      shelf
      (filtered_products (λ s. s) few shelf)
filtered_products_lem_example = filtered_products_lem (λ s. s) few shelf

abbrev scanned : InventoryFilters
scanned = record few { search_query = "BUZ"; stock_filter = all }

abbrev closed : Scanner
closed = record { expanded_products = 5 ∷ []; scan_feedback = none }

handle_search_key_down_lem_example :
    let t = handle_search_key_down (λ s. s) (λ s. s) "Enter" scanned shelf closed in
    let shown = filtered_products (λ s. s) scanned shelf in
    let matches = variant_matches (λ s. s) "BUZ" in
    if str_eq "Enter" "Enter" && not (str_eq "BUZ" "")
    then t.expanded_products ≡ opens (found_in shown (keep matches shown)) (5 ∷ [])
    else t ≡ closed
handle_search_key_down_lem_example =
    handle_search_key_down_lem (λ s. s) (λ s. s) "Enter" scanned shelf closed

abbrev server : Inquiry
server = record {
  products = accepted (items (product 1 "Remera" [] ∷ product 3 "Gorra" [] ∷ []));
  variants = λ id.
      if id == 1 then accepted (variant 7 "REM-R" 0 ∷ variant 8 "REM-A" 0 ∷ []) else accepted [];
  variant_stocks = λ id. if id == 7 then accepted (some (row "salta" 4 ∷ [])) else refused 404 none;
  product_stocks = λ id. accepted (some (row "salta" 9 ∷ []));
  first_of = λ m ms. m;
}

abbrev page : InventoryPage
page = record {
  products = [];
  loading = true;
  error = none;
  success = none;
  editing_stock = none;
  posted = [];
}

load_inventory_lem_example :
    Loads server
      (product 1 "Remera" [] ∷ product 3 "Gorra" [] ∷ [])
      page
      (load_inventory server page)
load_inventory_lem_example =
    load_inventory_lem server (product 1 "Remera" [] ∷ product 3 "Gorra" [] ∷ []) page refl
