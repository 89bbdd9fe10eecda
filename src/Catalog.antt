-- ===== src/Catalog.antt =====
-- front/src/app/productos/ProductosClient.tsx: the catalogue's products, their stock and order, the
-- filters with their options, and the pages.
pub mod Order
pub mod Options
pub mod Pages
pub mod Url
mod Tests
use Prim.Native.Nat.{min, max}
use go_moda_mayor.Net.{Reply, failed, refused, garbled, accepted}
use go_moda_mayor.Orders.{Result, ok, thrown}
use go_moda_mayor.Prelude.{
  ℕ, zero, suc, ◌+◌, ◌-◌, ◌*◌, Bool, true, false, not, ◌&&◌, ◌||◌, Option, none, some, List, [],
  ◌∷◌, ◌++◌, map, String, ◌==◌, ltb, leb, if◌then◌else◌, any, keep, take, drop, length, str_eq,
  truthy, get_or, or_else,
}

-- A row of the stock at a place, under the names that the page tries in turn.
pub record StockRow : Type 0 where
  pub quantity : Option ℕ
  pub qty : Option ℕ
  pub stock : Option ℕ
  pub available : Option ℕ

-- `location_stocks` is `none` if it is no array.
pub record CatalogVariant : Type 0 where
  pub color : Option String
  pub size : Option String
  pub location_stocks : Option (List StockRow)
  pub stock : Option ℕ
  pub quantity : Option ℕ
  pub available : Option ℕ

pub record Named : Type 0 where
  pub id : Option ℕ
  pub name : Option String

-- `wholesale_price` is `none` if it is undefined or null.
pub record CatalogProduct (F : Type 0) : Type 0 where
  pub id : ℕ
  pub category : Option Named
  pub subcategory : Option Named
  pub wholesale_price : Option F
  pub location_stocks : Option (List StockRow)
  pub variants : Option (List CatalogVariant)

-- `ls?.quantity ?? ls?.qty ?? ls?.stock ?? ls?.available ?? 0`
row_quantity : StockRow → ℕ
row_quantity r = get_or (or_else r.quantity (or_else r.qty (or_else r.stock r.available))) 0

-- `for (const ls of rows) total += ...`
add_rows : ℕ → List StockRow → ℕ
unfolding row_quantity
add_rows total [] = total
add_rows total (r ∷ rs) = add_rows (total + row_quantity r) rs

add_variant : Option (List StockRow) → ℕ → CatalogVariant → ℕ
add_variant (some rows) total v = add_rows total rows
add_variant none total v = total + get_or (or_else v.stock (or_else v.quantity v.available)) 0

add_variants : ℕ → List CatalogVariant → ℕ
unfolding add_variant
add_variants total [] = total
add_variants total (v ∷ vs) = add_variants (add_variant v.location_stocks total v) vs

-- Rows of the product itself, if there are any, hide those of its variants.
total_of : Option (List StockRow) → List CatalogVariant → ℕ
unfolding add_rows add_variants
total_of none vs = add_variants 0 vs
total_of (some []) vs = add_variants 0 vs
total_of (some (r ∷ rs)) vs = add_rows 0 (r ∷ rs)

abbrev pub variants_of : {F : Type 0} → CatalogProduct F → List CatalogVariant
variants_of p = get_or p.variants []

pub compute_total_stock : {F : Type 0} → CatalogProduct F → ℕ
unfolding total_of
compute_total_stock p = total_of p.location_stocks (variants_of p)

-- A product with the property `_totalStock`.
pub record Stocked (F : Type 0) : Type 0 where
  pub product : CatalogProduct F
  pub total_stock : ℕ

abbrev pub with_stock : {F : Type 0} → CatalogProduct F → Stocked F
with_stock p = record { product = p; total_stock = compute_total_stock p }

module _ {F : Type 0} where
  -- `sort((a, b) => sb - sa)`: the language's sort is stable.
  pub insert_by_stock : Stocked F → List (Stocked F) → List (Stocked F)
  insert_by_stock p [] = p ∷ []
  insert_by_stock p (q ∷ qs) =
      if ltb p.total_stock q.total_stock then q ∷ insert_by_stock p qs else p ∷ q ∷ qs

  pub sort_by_stock : List (Stocked F) → List (Stocked F)
  sort_by_stock [] = []
  sort_by_stock (p ∷ ps) = insert_by_stock p (sort_by_stock ps)

  pub items_with_stock : List (CatalogProduct F) → List (Stocked F)
  items_with_stock ps = sort_by_stock (map with_stock ps)

-- The options that the user has chosen. A price is `none` if it is null, undefined or "".
pub record Filters (F : Type 0) : Type 0 where
  pub category : Option ℕ
  pub subcategory : Option ℕ
  pub colors : List String
  pub sizes : List String
  pub min_price : Option F
  pub max_price : Option F

abbrev pub id_of : Option Named → Option ℕ
id_of none = none
id_of (some n) = n.id

-- A product without the identifier passes.
abbrev pub passes_id : Option ℕ → Option ℕ → Bool
passes_id none id = true
passes_id (some c) none = true
passes_id (some c) (some id) = id == c

abbrev pub has : List String → String → Bool
has texts t = any (λ s. str_eq s t) texts

abbrev pub is_empty : List String → Bool
is_empty [] = true
is_empty (t ∷ ts) = false

-- `v.color ? String(v.color) : ""`
abbrev pub text_of : Option String → String
text_of o = get_or o ""

abbrev pub passes_variant : List String → List String → CatalogVariant → Bool
passes_variant colors sizes v =
    (is_empty colors || has colors (text_of v.color))
    && (is_empty sizes || has sizes (text_of v.size))

passes_options : List String → List String → List CatalogVariant → Bool
passes_options colors sizes vs =
    if is_empty colors && is_empty sizes then true else any (passes_variant colors sizes) vs

-- The language's comparison of numbers, and NaN.
module _ {F : Type 0} (less : F → F → Bool) (is_nan : F → Bool) where
  abbrev below : F → Option F → Bool
  below price none = false
  below price (some least) = less price least

  abbrev above : F → Option F → Bool
  above price none = false
  above price (some most) = less most price

  passes_price : Option F → Option F → Option F → Bool
  passes_price least most none = true
  passes_price least most (some price) =
      is_nan price || not (below price least) && not (above price most)

  -- The filter of `filteredProducts`.
  pub passes : Filters F → CatalogProduct F → Bool
  unfolding passes_options passes_price
  passes f p =
      passes_id f.category (id_of p.category)
      && passes_id f.subcategory (id_of p.subcategory)
      && passes_price f.min_price f.max_price p.wholesale_price
      && passes_options f.colors f.sizes (variants_of p)

  pub filtered_products : Filters F → List (CatalogProduct F) → List (CatalogProduct F)
  filtered_products f ps = keep (passes f) ps

-- The state of the page that a fetch changes.
pub record CatalogState (F : Type 0) : Type 0 where
  pub products : List (Stocked F)
  pub total : Option ℕ
  pub loading : Bool
  pub error : Option String

-- The effect that fetches a page of products.
pub load_products :
    {F : Type 0} → Result (List (CatalogProduct F) × Option ℕ) → CatalogState F → CatalogState F
load_products (ok (items, total)) s = record s {
  products = items_with_stock items;
  total = total;
  loading = false;
}
load_products (thrown m) s = record s { error = some m; loading = false }

-- The effect that fetches the subcategories of the chosen category: an array, or other JSON.
pub load_subcategories : {S : Type 0} → Option ℕ → Reply (Option (List S)) → List S
load_subcategories none reply = []
load_subcategories (some zero) reply = []
load_subcategories (some (suc c)) (accepted (some subcategories)) = subcategories
load_subcategories (some (suc c)) reply = []
