-- ===== src/Catalog/Options.antt =====
-- The options of the filters of front/src/app/productos/ProductosClient.tsx: which colours and sizes
-- there are, and in how many products.
pub mod Counts
pub mod Listed
use go_moda_mayor.Prelude.{
  ℕ, zero, suc, ◌+◌, ◌-◌, ◌*◌, Bool, true, false, not, ◌&&◌, ◌||◌, Option, none, some, List, [],
  ◌∷◌, ◌++◌, map, String, ◌==◌, ltb, leb, if◌then◌else◌, any, keep, take, drop, length, str_eq,
  truthy, get_or, or_else,
}
use go_moda_mayor.Catalog.{CatalogVariant, CatalogProduct, variants_of, text_of, has}

-- `Set.add`
pub add_option : String → List String → List String
add_option t [] = t ∷ []
add_option t (s ∷ ss) = if str_eq s t then s ∷ ss else s ∷ add_option t ss

-- `Map.set(k, (Map.get(k) ?? 0) + 1)`
pub increment : String → List (String × ℕ) → List (String × ℕ)
increment k [] = (k, 1) ∷ []
increment k ((j, n) ∷ m) = if str_eq j k then (j, n + 1) ∷ m else (j, n) ∷ increment k m

pub lookup : String → List (String × ℕ) → Option ℕ
lookup k [] = none
lookup k ((j, n) ∷ m) = if str_eq j k then some n else lookup k m

-- The loops over the products' variants, for the property `pick`: the colour or the size.
module _ (pick : CatalogVariant → Option String) where
  pub add_options : List String → List CatalogVariant → List String
  add_options found [] = found
  add_options found (v ∷ vs) =
      add_options (if truthy (pick v) then add_option (text_of (pick v)) found else found) vs

  pub collect : {F : Type 0} → List String → List (CatalogProduct F) → List String
  collect found [] = found
  collect found (p ∷ ps) = collect (add_options found (variants_of p)) ps

  pub available : {F : Type 0} → List (CatalogProduct F) → List String
  available ps = collect [] ps

  -- The options `seen` in this product are not counted again.
  pub count_variants : List String → List (String × ℕ) → List CatalogVariant → List (String × ℕ)
  count_variants seen m [] = m
  count_variants seen m (v ∷ vs) =
      let k = text_of (pick v) in
      let is_new = truthy (pick v) && not (has seen k) in
      count_variants (if is_new then k ∷ seen else seen) (if is_new then increment k m else m) vs

  pub count_products :
      {F : Type 0} → List (String × ℕ) → List (CatalogProduct F) → List (String × ℕ)
  count_products m [] = m
  count_products m (p ∷ ps) = count_products (count_variants [] m (variants_of p)) ps

  pub counts : {F : Type 0} → List (CatalogProduct F) → List (String × ℕ)
  counts ps = count_products [] ps

-- `colorCounts.get(color) || 0`
pub shown_count : {F : Type 0} → String → List (CatalogProduct F) → ℕ
shown_count k ps = get_or (lookup k (counts (λ v. v.color) ps)) 0
