-- ===== src/Inventory/Shown.antt =====
-- The products that front/src/app/admin/inventario/page.tsx shows.
use mathlib.Core.Path.{fun_ext, subst}
use go_moda_mayor.Prelude.{
  ℕ, ◌+◌, ◌≡◌, refl, ◌∙◌, Bool, true, not, ◌&&◌, ◌||◌, Option, List, [], ◌∷◌, String, ◌==◌, ltb,
  leb, if◌then◌else◌, keep, reduce, All, keep-ext, arith, Bool-cases, inl, inr,
}
use go_moda_mayor.Prelude.Sort.{sort_by}
use go_moda_mayor.Prelude.Sort.ByKey.{
  IsAscending, sort_by-IsAscending, keep-sort_by, sort_by_always, sort_by_sorted, zeros-IsAscending,
}
use go_moda_mayor.Inventory.{
  LocationStock, InventoryVariant, InventoryProduct, InventoryFilters, StockFilter, all, low, out,
  reserved, get_stock_for_location, get_total_stock_for_product, reduce_stock, variants_of,
  get_stock_for_location_all_variants, sum_stock, add_stock, passes_choice, passes_stock, stays,
  has_reserved, filtered_products,
}

add_stock-reduce :
    (place : String) (total : ℕ) (vs : List InventoryVariant)
    → add_stock place total vs
      ≡ reduce (λ sum w. sum + get_stock_for_location w.stocks place) total vs
unfolding add_stock
add_stock-reduce place total [] = refl
add_stock-reduce place total (v ∷ vs) =
    add_stock-reduce place (total + get_stock_for_location v.stocks place) vs

sum_stock-reduce_stock :
    (own : Option (List LocationStock)) (place : String) (vs : List InventoryVariant)
    → sum_stock own place vs ≡ reduce_stock own place vs
unfolding sum_stock reduce_stock
sum_stock-reduce_stock own place [] = refl
sum_stock-reduce_stock own place (v ∷ vs) = add_stock-reduce place 0 (v ∷ vs)

-- The stock that the filters count is the stock that is shown.
pub counted-shown :
    (p : InventoryProduct) (place : String)
    → get_stock_for_location_all_variants p place ≡ get_total_stock_for_product p place
unfolding get_stock_for_location_all_variants get_total_stock_for_product
counted-shown p place = sum_stock-reduce_stock p.stocks place (variants_of p)

module _ (to_lower_case : String → String) (f : InventoryFilters) where
  module _ (stock : InventoryProduct → ℕ) where
    -- The products with `n` in stock that pass the other filters.
    abbrev pub chosen_with : ℕ → List InventoryProduct → List InventoryProduct
    chosen_with n ps = keep (λ p. passes_choice to_lower_case f p && stock p == n) ps

    -- What is to be shown, for each filter on the stock.
    abbrev pub IsShown : StockFilter → List InventoryProduct → List InventoryProduct → Type 0
    IsShown all ps shown = shown ≡ keep (passes_choice to_lower_case f) ps
    IsShown out ps shown = shown ≡ chosen_with 0 ps
    IsShown low ps shown =
        IsAscending stock shown
        × ((n : ℕ)
            → keep (λ p. stock p == n) shown
              ≡ (if ltb 0 n && leb n f.low_stock_threshold then chosen_with n ps else []))
    IsShown reserved ps shown =
        shown ≡ keep (λ p. passes_choice to_lower_case f p && has_reserved p f.selected_location) ps

  abbrev counted : InventoryProduct → ℕ
  counted p = get_stock_for_location_all_variants p f.selected_location

  abbrev choice : InventoryProduct → Bool
  choice p = passes_choice to_lower_case f p

  chosen_with_zero :
      (ps : List InventoryProduct) → All (λ p. counted p ≡ 0) (chosen_with counted 0 ps)
  chosen_with_zero [] = tt
  chosen_with_zero (p ∷ ps) = elim (Bool-cases (choice p && counted p == 0)) [
    | inl e ↦ rw e (ground arith, chosen_with_zero ps)
    | inr e ↦ rw e (chosen_with_zero ps)
  ]

  abbrev is_low : InventoryProduct → Bool
  is_low p = choice p && not (counted p == 0 || ltb f.low_stock_threshold (counted p))

  keep_low :
      (n : ℕ) (ps : List InventoryProduct)
      → keep (λ p. counted p == n) (keep is_low ps)
        ≡ (if ltb 0 n && leb n f.low_stock_threshold then chosen_with counted n ps else [])
  keep_low n [] = ground arith
  keep_low n (p ∷ ps) = ground (arith, keep_low n ps)

  keep_out :
      (ps : List InventoryProduct)
      → keep (λ p. choice p && not (ltb 0 (counted p))) ps ≡ chosen_with counted 0 ps
  keep_out ps = keep-ext _ _ ps (λ p. ground arith)

  keep_all : (ps : List InventoryProduct) → keep (λ p. choice p && true) ps ≡ keep choice ps
  keep_all ps = keep-ext _ _ ps (λ p. ground arith)

  shown_by :
      (filter : StockFilter) (ps : List InventoryProduct)
      → IsShown counted filter ps (
          sort_by (stays filter f.selected_location) (
            keep
              (λ p. choice p && passes_stock filter f.low_stock_threshold f.selected_location p)
              ps))
  unfolding passes_stock stays
  shown_by all ps = sort_by_always _ ∙ keep_all ps
  shown_by reserved ps = sort_by_always _
  shown_by out ps =
      rw (keep_out ps)
        (sort_by_sorted counted _ (zeros-IsAscending counted _ (chosen_with_zero ps)))
  shown_by low ps = (sort_by-IsAscending counted _, λ n. keep-sort_by counted n _ ∙ keep_low n ps)

  -- The filters and the order show, with the stock that stands beside each product: of the products
  -- that pass the filters on text, category and supplier, and in the order of the list, all; those
  -- without stock; or those with something reserved. With the filter for low stock, the least stock
  -- comes first, and for every number the products with just that number in stock are those of the
  -- list, in its order, if the number is above zero and at most the threshold, and else none.
  pub filtered_products_lem :
      (ps : List InventoryProduct)
      → IsShown
          (λ p. get_total_stock_for_product p f.selected_location)
          f.stock_filter
          ps
          (filtered_products to_lower_case f ps)
  unfolding filtered_products
  filtered_products_lem ps =
      subst
        (λ (k : InventoryProduct → ℕ).
          IsShown k f.stock_filter ps (filtered_products to_lower_case f ps))
        (fun_ext (λ p. counted-shown p f.selected_location)) (shown_by f.stock_filter ps)
