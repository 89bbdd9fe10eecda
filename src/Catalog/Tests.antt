-- ===== src/Catalog/Tests.antt =====
-- Runs of front/src/app/productos/ProductosClient.tsx, and its theorems at concrete inputs. Prices
-- are natural numbers, and the parameters of a URL a function from names to texts.
use go_moda_mayor.Prelude.{
  ℕ, ◌+◌, ◌≡◌, ◌≤◌, ◌↔◌, refl, true, false, Option, none, some, List, [], ◌∷◌, ◌++◌, map, String,
  ◌==◌, ltb, keep, length, str_eq, if◌then◌else◌, arith, get_elem?, ◌-◌,
}
use go_moda_mayor.Catalog.{
  CatalogVariant, CatalogProduct, Filters, compute_total_stock, total_of, add_variants, add_variant,
  items_with_stock, filtered_products,
}
use go_moda_mayor.Catalog.Order.{IsDescending, items_with_stock_lem}
use go_moda_mayor.Catalog.Options.{shown_count}
use go_moda_mayor.Catalog.Options.Counts.{only_color, shown_count-filtered_products}
use go_moda_mayor.Catalog.Pages.{
  page_size, paginated, next_disabled, shown_range, shown_range_lem, paged_twice,
}
use go_moda_mayor.Catalog.Url.{Params}

abbrev variant : String → ℕ → CatalogVariant
variant color n = record {
  color = some color;
  size = some "M";
  location_stocks = none;
  stock = some n;
  quantity = none;
  available = none;
}

abbrev shirt : ℕ → List CatalogVariant → CatalogProduct ℕ
shirt id vs = record {
  id = id;
  category = none;
  subcategory = none;
  wholesale_price = some 900;
  location_stocks = none;
  variants = some vs;
}

abbrev rack : List (CatalogProduct ℕ)
rack =
    shirt 1 (variant "rojo" 2 ∷ variant "rojo" 1 ∷ [])
    ∷ shirt 2 (variant "rojo" 4 ∷ variant "azul" 3 ∷ [])
    ∷ shirt 3 []
    ∷ []

adds_stock : map compute_total_stock rack ≡ 3 ∷ 7 ∷ 0 ∷ []
unfolding compute_total_stock total_of add_variants add_variant
adds_stock = refl

items_with_stock_lem_example :
    IsDescending (items_with_stock rack)
    × ((n : ℕ)
        → map (λ q. q.product) (keep (λ q. q.total_stock == n) (items_with_stock rack))
          ≡ keep (λ p. compute_total_stock p == n) rack)
items_with_stock_lem_example = items_with_stock_lem rack

shown_count-filtered_products_example :
    shown_count "rojo" rack ≡ length (filtered_products ltb (λ n. false) (only_color "rojo") rack)
shown_count-filtered_products_example =
    shown_count-filtered_products ltb (λ n. false) "rojo" rack refl

-- Thirty products.
abbrev ten : List ℕ
ten = 0 ∷ 1 ∷ 2 ∷ 3 ∷ 4 ∷ 5 ∷ 6 ∷ 7 ∷ 8 ∷ 9 ∷ []

abbrev thirty : List ℕ
thirty = ten ++ ten ++ ten

shown_range_lem_example :
    let shown = paginated 2 thirty in
    (1 ≤ 25)
    × (get_elem? thirty (25 - 1) ≡ get_elem? shown 0)
    × (get_elem? thirty (30 - 1) ≡ get_elem? shown (length shown - 1))
    × (25 + length shown ≡ 30 + 1)
    × (1 ≤ length shown)
    × (length shown ≤ page_size)
    × ((next_disabled 2 thirty ≡ true) ↔ (paginated 3 thirty ≡ []))
unfolding shown_range
shown_range_lem_example = shown_range_lem 2 25 30 thirty (omega arith) (omega arith) refl

abbrev red_only : Filters ℕ
red_only = only_color "rojo"

paged_twice_example :
    let shown = filtered_products ltb (λ n. false) red_only rack in
    (next_disabled 1 shown ≡ true) × ((page : ℕ) → paginated (page + 2) shown ≡ [])
paged_twice_example = paged_twice ltb (λ n. false) red_only rack (omega arith)

instance abbrev query : Params (String → Option String)
query = record {
  get = λ k p. p k;
  set = λ j v p k. if str_eq j k then some v else p k;
  delete = λ j p k. if str_eq j k then none else p k;
}

-- The number of characters, in place of the language's `Number`.
abbrev size_of : String → ℕ
size_of String.[] = 0
size_of (String.◌∷◌ c s) = size_of s + 1

-- The URL has two colours.
abbrev chosen : String → Option String
chosen k = if str_eq "colors" k then some "rojo,azul" else none
