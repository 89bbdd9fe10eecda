-- ===== src/Inventory/Scan/Found.antt =====
-- What the Enter key in the search field of front/src/app/admin/inventario/page.tsx opens.
use go_moda_mayor.Prelude.{
  ℕ, suc, ◌+◌, ◌≡◌, refl, Bool, false, not, ◌&&◌, inl, inr, Option, none, some, List, [], ◌∷◌,
  String, ◌==◌, if◌then◌else◌, str_eq, keep, length, arith, Bool-cases,
}
use go_moda_mayor.Inventory.{InventoryProduct, InventoryFilters, filtered_products, variant_matches}
use go_moda_mayor.Inventory.Scan.{
  Scanner, count_matches, open_only, on_enter, handle_search_key_down,
}

-- What is to be opened of the products shown, some of which match: the only product, or else the
-- only one that matches.
abbrev pub found_in : List InventoryProduct → List InventoryProduct → Option InventoryProduct
found_in [] ms = none
found_in (p ∷ []) ms = some p
found_in (p ∷ q ∷ ps) [] = none
found_in (p ∷ q ∷ ps) (m ∷ []) = some m
found_in (p ∷ q ∷ ps) (m ∷ n ∷ ms) = none

abbrev pub opens : Option InventoryProduct → List ℕ → List ℕ
opens none old = old
opens (some p) old = p.id ∷ []

module _ (matches : InventoryProduct → Bool) where
  last_of : List InventoryProduct → Option InventoryProduct → Option InventoryProduct
  last_of [] found = found
  last_of (p ∷ ps) found = last_of ps (some p)

  count_matches-keep :
      (ps : List InventoryProduct) (found : Option InventoryProduct) (n : ℕ)
      → count_matches matches (found, n) ps
        ≡ (last_of (keep matches ps) found, n + length (keep matches ps))
  unfolding count_matches last_of
  count_matches-keep [] found n = ground arith
  count_matches-keep (p ∷ ps) found n = elim (Bool-cases (matches p)) [
    | inl e ↦ rw (e, count_matches-keep ps (some p) (n + 1)) (ground arith)
    | inr e ↦ rw e (count_matches-keep ps found n)
  ]

  open_only_many :
      (found : Option InventoryProduct) (n : ℕ) (s : Scanner)
      → (open_only (found, suc (suc n)) s).expanded_products ≡ s.expanded_products
  unfolding open_only
  open_only_many none n s = refl
  open_only_many (some p) n s = let e : (suc (suc n) == 1) ≡ false = ground arith in rw e refl

  open_only_lem :
      (p q : InventoryProduct) (ps ms : List InventoryProduct) (s : Scanner)
      → (open_only (last_of ms none, 0 + length ms) s).expanded_products
        ≡ opens (found_in (p ∷ q ∷ ps) ms) s.expanded_products
  unfolding open_only last_of
  open_only_lem p q ps [] s = refl
  open_only_lem p q ps (m ∷ []) s = refl
  open_only_lem p q ps (m ∷ n ∷ ms) s =
      let e : 0 + suc (suc (length ms)) ≡ suc (suc (length ms)) = omega arith in
      rw e (open_only_many (last_of ms (some n)) (length ms) s)

  on_enter_lem :
      (ps : List InventoryProduct) (s : Scanner)
      → (on_enter matches ps s).expanded_products
        ≡ opens (found_in ps (keep matches ps)) s.expanded_products
  unfolding on_enter
  on_enter_lem [] s = refl
  on_enter_lem (p ∷ []) s = refl
  on_enter_lem (p ∷ q ∷ ps) s =
      rw (count_matches-keep (p ∷ q ∷ ps) none 0)
        (open_only_lem p q ps (keep matches (p ∷ q ∷ ps)) s)

-- With a text other than blanks in the field, Enter opens the only product that is shown, or, of
-- several, the only one with a variant whose code contains the text, and closes all others; if there
-- is none such, what is open stays so. Another key, and Enter with blanks, changes nothing.
pub handle_search_key_down_lem :
    (trim to_lower_case : String → String) (key : String) (f : InventoryFilters)
    (products : List InventoryProduct) (s : Scanner)
    → let t = handle_search_key_down trim to_lower_case key f products s in
      let shown = filtered_products to_lower_case f products in
      let matches = variant_matches to_lower_case (to_lower_case f.search_query) in
      if str_eq key "Enter" && not (str_eq (trim f.search_query) "")
      then t.expanded_products ≡ opens (found_in shown (keep matches shown)) s.expanded_products
      else t ≡ s
unfolding handle_search_key_down
handle_search_key_down_lem trim to_lower_case key f products s =
    elim (Bool-cases (str_eq key "Enter")) [
      | inr e ↦ rw e refl
      | inl e ↦ elim (Bool-cases (str_eq (trim f.search_query) "")) [
        | inl b ↦ rw (e, b) refl
        | inr b ↦ rw (e, b) (on_enter_lem _ (filtered_products to_lower_case f products) s)
      ]
    ]
