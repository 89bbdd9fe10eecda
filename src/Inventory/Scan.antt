-- ===== src/Inventory/Scan.antt =====
-- The Enter key in the search field of front/src/app/admin/inventario/page.tsx, which a scanner of
-- codes sends: it opens the product that was found.
pub mod Found
use go_moda_mayor.Prelude.{
  ℕ, ◌+◌, Bool, Option, none, some, List, [], ◌∷◌, String, ◌==◌, if◌then◌else◌, str_eq, get_or,
  concat,
}
use go_moda_mayor.Inventory.{InventoryProduct, InventoryFilters, filtered_products, variant_matches}

-- `expandedProducts`, the identifiers of the products whose variants are shown, and the message,
-- which stands for two seconds.
pub record Scanner : Type 0 where
  pub expanded_products : List ℕ
  pub scan_feedback : Option String

abbrev opened : String → InventoryProduct → Scanner → Scanner
opened message p s = record {
  expanded_products = p.id ∷ [];
  scan_feedback = some (concat (message ∷ get_or p.name "undefined" ∷ []));
}

-- The loop over the products: the last that matches, and how many do.
count_matches :
    (InventoryProduct → Bool)
    → Option InventoryProduct × ℕ
    → List InventoryProduct
    → Option InventoryProduct × ℕ
count_matches matches (found, n) [] = (found, n)
count_matches matches (found, n) (p ∷ ps) =
    count_matches matches (if matches p then (some p, n + 1) else (found, n)) ps

open_only : Option InventoryProduct × ℕ → Scanner → Scanner
open_only (none, n) s = s
open_only (some p, n) s = if n == 1 then opened "✓ Variante encontrada en: " p s else s

on_enter : (InventoryProduct → Bool) → List InventoryProduct → Scanner → Scanner
unfolding count_matches open_only
on_enter matches [] s = s
on_enter matches (p ∷ []) s = opened "✓ Producto encontrado: " p s
on_enter matches (p ∷ q ∷ ps) s = open_only (count_matches matches (none, 0) (p ∷ q ∷ ps)) s

-- `trim` and `to_lower_case` are the language's.
module _ (trim to_lower_case : String → String) where
  pub handle_search_key_down : String → InventoryFilters → List InventoryProduct → Scanner → Scanner
  unfolding on_enter
  handle_search_key_down key f products s =
      if str_eq key "Enter"
      then if str_eq (trim f.search_query) ""
        then s
        else on_enter (variant_matches to_lower_case (to_lower_case f.search_query))
            (filtered_products to_lower_case f products) s
      else s
