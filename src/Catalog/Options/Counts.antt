-- ===== src/Catalog/Options/Counts.antt =====
-- The options beside the catalogue of front/src/app/productos/ProductosClient.tsx and their numbers.
use text.Mathlib.TextEquality.{eq_iff}
use go_moda_mayor.Prelude.{
  ℕ, ◌+◌, ◌≡◌, refl, Bool, true, false, not, ◌&&◌, ◌||◌, Option, none, some, List, [], ◌∷◌, String,
  arith, if◌then◌else◌, any, keep, any-ext, keep-ext, length, str_eq, truthy, get_or, Bool-cases,
  Option-cases, inl, inr,
}
use go_moda_mayor.Catalog.{
  CatalogVariant, CatalogProduct, Filters, has, text_of, variants_of, passes, filtered_products,
  passes_options, passes_price, passes_variant,
}
use go_moda_mayor.Catalog.Options.{
  lookup, increment, count_variants, count_products, counts, shown_count,
}

-- The number of an option in a map.
abbrev number : String → List (String × ℕ) → ℕ
number k m = get_or (lookup k m) 0

number-increment :
    (k j : String) (m : List (String × ℕ))
    → number k (increment j m) ≡ number k m + (if str_eq j k then 1 else 0)
unfolding lookup increment
number-increment k j [] = ground arith
number-increment k j ((i, n) ∷ m) =
    ground (arith, eq_iff i j, eq_iff i k, eq_iff j k, number-increment k j m)

fresh :
    (seen : List String) (j k : String)
    → (truthy (some j) && not (has seen j)) ≡ true
    → str_eq j k ≡ true
    → has seen k ≡ false
fresh seen j k t e = rw (← (eq_iff j k).0 e) (no_more (truthy (some j)) (has seen j) t)
  where
    no_more : (a b : Bool) → (a && not b) ≡ true → b ≡ false
    no_more true true h = cc
    no_more true false h = refl
    no_more false b h = cc

repeated :
    (seen : List String) (j k : String)
    → (truthy (some j) && not (has seen j)) ≡ false
    → truthy (some k) ≡ true
    → str_eq j k ≡ true
    → has seen k ≡ true
repeated seen j k t full e =
    let same : j ≡ k = (eq_iff j k).0 e in
    rw (← same) (again (truthy (some j)) (has seen j) t (rw same full))
  where
    again : (a b : Bool) → (a && not b) ≡ false → a ≡ true → b ≡ true
    again true true h f = refl
    again true false h f = cc
    again false b h f = cc

-- The two cases of a round: an option that is counted, and one that is passed over.
new_option :
    (same was more : Bool) (n c r : ℕ)
    → (same ≡ true → was ≡ false)
    → c ≡ n + (if same then 1 else 0)
    → r ≡ c + (if not (same || was) && more then 1 else 0)
    → r ≡ n + (if not was && (same || more) then 1 else 0)
new_option true was more n c r f p q = rw (f refl) (omega (arith, p, q))
new_option false was more n c r f p q = ground arith

old_option :
    (same was more : Bool) (n r : ℕ)
    → (same ≡ true → was ≡ true)
    → r ≡ n + (if not was && more then 1 else 0)
    → r ≡ n + (if not was && (same || more) then 1 else 0)
old_option true was more n r f q = rw (f refl) (rw (f refl) at q)
old_option false was more n r f q = q

module _ (pick : CatalogVariant → Option String) (k : String) where
  -- One of the variants has the option.
  abbrev pub offers : List CatalogVariant → Bool
  offers vs = any (λ v. str_eq (text_of (pick v)) k) vs

  once : List String → List CatalogVariant → ℕ
  once seen vs = if not (has seen k) && offers vs then 1 else 0

  number-count_variants :
      (seen : List String) (m : List (String × ℕ)) (vs : List CatalogVariant)
      → truthy (some k) ≡ true
      → number k (count_variants pick seen m vs) ≡ number k m + once seen vs
  unfolding count_variants once
  number-count_variants seen m [] full = ground arith
  number-count_variants seen m (v ∷ vs) full = elim (Option-cases (pick v)) [
    | inl e ↦ rw e (ground (arith, eq_iff "" k, eq_iff k "", number-count_variants seen m vs full))
    | inr (j, e) ↦ rw e (elim (Bool-cases (truthy (some j) && not (has seen j))) [
      | inl t ↦ rw t (
          new_option (str_eq j k) (has seen k) (offers vs) (number k m) _ _ (fresh seen j k t)
            (number-increment k j m) (number-count_variants (j ∷ seen) (increment j m) vs full))
      | inr t ↦ rw t (
          old_option (str_eq j k) (has seen k) (offers vs) (number k m) _ (repeated seen j k t full)
            (number-count_variants seen m vs full))
    ])
  ]

  -- The option stands in a product.
  abbrev pub offered : {F : Type 0} → CatalogProduct F → Bool
  offered p = offers (variants_of p)

  number-count_products :
      {F : Type 0} (m : List (String × ℕ)) (ps : List (CatalogProduct F))
      → truthy (some k) ≡ true
      → number k (count_products pick m ps) ≡ number k m + length (keep offered ps)
  unfolding count_products once
  number-count_products m [] full = omega arith
  number-count_products m (p ∷ ps) full = elim (Bool-cases (offered p)) [
    | inl e ↦ rw e (
        ground (
          arith,
          number-count_variants [] m (variants_of p) full,
          number-count_products (count_variants pick [] m (variants_of p)) ps full,
        ))
    | inr e ↦ rw e (
        ground (
          arith,
          number-count_variants [] m (variants_of p) full,
          number-count_products (count_variants pick [] m (variants_of p)) ps full,
        ))
  ]

-- All filters left alone but for one colour.
abbrev pub only_color : {F : Type 0} → String → Filters F
only_color k = record {
  category = none;
  subcategory = none;
  colors = k ∷ [];
  sizes = [];
  min_price = none;
  max_price = none;
}

passes_color :
    (k : String) (v : CatalogVariant) → passes_variant (k ∷ []) [] v ≡ str_eq (text_of v.color) k
passes_color k v = ground (arith, eq_iff k (text_of v.color), eq_iff (text_of v.color) k)

module _ {F : Type 0} (less : F → F → Bool) (is_nan : F → Bool) where
  passes_any_price : (price : Option F) → passes_price less is_nan none none price ≡ true
  unfolding passes_price
  passes_any_price none = refl
  passes_any_price (some price) = ground arith

  passes-only_color :
      (k : String) (p : CatalogProduct F)
      → passes less is_nan (only_color k) p ≡ offered (λ v. v.color) k p
  unfolding passes passes_options
  passes-only_color k p = rw (passes_any_price p.wholesale_price) (
      any-ext (passes_variant (k ∷ []) []) (λ v. str_eq (text_of v.color) k) (variants_of p)
        (passes_color k))

  -- The number beside a colour is the number of products that are left when that colour, and nothing
  -- else, is chosen.
  pub shown_count-filtered_products :
      (k : String) (ps : List (CatalogProduct F))
      → truthy (some k) ≡ true
      → shown_count k ps ≡ length (filtered_products less is_nan (only_color k) ps)
  unfolding shown_count counts filtered_products lookup
  shown_count-filtered_products k ps full =
      rw
        (keep-ext (passes less is_nan (only_color k)) (offered (λ v. v.color) k) ps
          (passes-only_color k))
        (omega (arith, number-count_products (λ v. v.color) k [] ps full))
