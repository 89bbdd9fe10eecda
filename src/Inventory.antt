-- ===== src/Inventory.antt =====
-- front/src/app/admin/inventario/page.tsx: the inventory of the administration, with the stock of each
-- product at each place. The language's `toLowerCase` is a parameter, of which nothing is assumed.
pub mod Shown
pub mod Load
pub mod Scan
pub mod Edit
mod Tests
use text.Mathlib.Text.{find?}
use Prim.Native.String
use go_moda_mayor.Prelude.{
  ℕ, zero, suc, ◌+◌, ◌-◌, Bool, true, false, not, ◌&&◌, ◌||◌, Option, none, some, List, [], ◌∷◌,
  String, ◌==◌, ltb, leb, if◌then◌else◌, any, find, keep, reduce, str_eq, truthy, get_or, is_some,
  concat,
}
use go_moda_mayor.Prelude.Decimal.{show_ℕ}
use go_moda_mayor.Prelude.Sort.{sort_by}

pub record LocationStock : Type 0 where
  pub location : String
  pub stock : ℕ
  pub reserved : ℕ

pub record InventoryVariant : Type 0 where
  pub id : ℕ
  pub sku : Option String
  pub stocks : Option (List LocationStock)

pub record InventoryProduct : Type 0 where
  pub id : ℕ
  pub name : Option String
  pub description : Option String
  pub category_id : Option ℕ
  pub supplier_id : Option ℕ
  pub variants : Option (List InventoryVariant)
  pub stocks : Option (List LocationStock)

abbrev at_place : String → LocationStock → Bool
at_place place r = str_eq r.location place

stock_of : Option LocationStock → ℕ
stock_of none = 0
stock_of (some r) = r.stock

pub get_stock_for_location : Option (List LocationStock) → String → ℕ
unfolding stock_of
get_stock_for_location none place = 0
get_stock_for_location (some rows) place = stock_of (find (at_place place) rows)

reserved_of : Option LocationStock → ℕ
reserved_of none = 0
reserved_of (some r) = r.reserved

pub get_reserved_for_location : Option (List LocationStock) → String → ℕ
unfolding reserved_of
get_reserved_for_location none place = 0
get_reserved_for_location (some rows) place = reserved_of (find (at_place place) rows)

abbrev variants_of : InventoryProduct → List InventoryVariant
variants_of p = get_or p.variants []

reduce_stock : Option (List LocationStock) → String → List InventoryVariant → ℕ
reduce_stock own place [] = get_stock_for_location own place
reduce_stock own place (v ∷ vs) =
    reduce (λ sum w. sum + get_stock_for_location w.stocks place) 0 (v ∷ vs)

pub get_total_stock_for_product : InventoryProduct → String → ℕ
unfolding reduce_stock
get_total_stock_for_product p place = reduce_stock p.stocks place (variants_of p)

-- `forEach(variant => { total += ... })`
add_stock : String → ℕ → List InventoryVariant → ℕ
add_stock place total [] = total
add_stock place total (v ∷ vs) = add_stock place (total + get_stock_for_location v.stocks place) vs

sum_stock : Option (List LocationStock) → String → List InventoryVariant → ℕ
unfolding add_stock
sum_stock own place [] = get_stock_for_location own place
sum_stock own place (v ∷ vs) = add_stock place 0 (v ∷ vs)

pub get_stock_for_location_all_variants : InventoryProduct → String → ℕ
unfolding sum_stock
get_stock_for_location_all_variants p place = sum_stock p.stocks place (variants_of p)

pub data StockFilter : Type 0 where
  all low out reserved : StockFilter

-- What the user has chosen.
pub record InventoryFilters : Type 0 where
  pub search_query : String
  pub selected_location : String
  pub selected_category : Option ℕ
  pub selected_supplier : Option ℕ
  pub stock_filter : StockFilter
  pub low_stock_threshold : ℕ

-- `s.includes(t)`
abbrev includes : String → String → Bool
includes s t = is_some (find? s t)

-- `n.padStart(5, '0')`
pad : ℕ → String → String
pad zero s = s
pad (suc n) s = String.◌++◌ "0" (pad n s)

abbrev text_length : String → ℕ
text_length String.[] = 0
text_length (String.◌∷◌ c s) = suc (text_length s)

pub product_code : ℕ → String
unfolding pad
product_code id =
    let digits = show_ℕ id in concat ("PROD-" ∷ pad (5 - text_length digits) digits ∷ [])

module _ (to_lower_case : String → String) where
  -- `text && text.toLowerCase().includes(query)`
  abbrev text_matches : String → Option String → Bool
  text_matches query none = false
  text_matches query (some text) = not (str_eq text "") && includes (to_lower_case text) query

  -- `product.variants?.some(v => v.sku && ...)`
  pub variant_matches : String → InventoryProduct → Bool
  variant_matches query p = any (λ v. text_matches query v.sku) (variants_of p)

  matches_search : String → InventoryProduct → Bool
  unfolding variant_matches
  matches_search query p =
      includes (to_lower_case (product_code p.id)) query
      || includes (show_ℕ p.id) query
      || text_matches query p.name
      || text_matches query p.description
      || variant_matches query p

  abbrev is_chosen : Option ℕ → Option ℕ → Bool
  is_chosen none id = true
  is_chosen (some c) none = false
  is_chosen (some c) (some id) = id == c

  -- The filters on the text, the category and the supplier.
  pub passes_choice : InventoryFilters → InventoryProduct → Bool
  unfolding matches_search
  passes_choice f p =
      (str_eq f.search_query "" || matches_search (to_lower_case f.search_query) p)
      && is_chosen f.selected_category p.category_id
      && is_chosen f.selected_supplier p.supplier_id

reserved_in : Option (List LocationStock) → String → List InventoryVariant → Bool
reserved_in own place [] = ltb 0 (get_reserved_for_location own place)
reserved_in own place (v ∷ vs) =
    any (λ w. ltb 0 (get_reserved_for_location w.stocks place)) (v ∷ vs)

pub has_reserved : InventoryProduct → String → Bool
unfolding reserved_in
has_reserved p place = reserved_in p.stocks place (variants_of p)

pub passes_stock : StockFilter → ℕ → String → InventoryProduct → Bool
passes_stock all threshold place p = true
passes_stock out threshold place p = not (ltb 0 (get_stock_for_location_all_variants p place))
passes_stock low threshold place p =
    let total = get_stock_for_location_all_variants p place in
    not (total == 0 || ltb threshold total)
passes_stock reserved threshold place p = has_reserved p place

-- Whether the first of two products may stay before the second: the comparison is not positive.
stays : StockFilter → String → InventoryProduct → InventoryProduct → Bool
stays low place a b =
    leb (get_stock_for_location_all_variants a place) (get_stock_for_location_all_variants b place)
stays out place a b =
    leb (get_stock_for_location_all_variants a place) (get_stock_for_location_all_variants b place)
stays all place a b = true
stays reserved place a b = true

-- `products.filter(...).sort(...)`
pub filtered_products :
    (String → String) → InventoryFilters → List InventoryProduct → List InventoryProduct
unfolding passes_choice passes_stock stays
filtered_products to_lower_case f products = sort_by (stays f.stock_filter f.selected_location) (
    keep
      (λ p.
        passes_choice to_lower_case f p
        && passes_stock f.stock_filter f.low_stock_threshold f.selected_location p)
      products)
