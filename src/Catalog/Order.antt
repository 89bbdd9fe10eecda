-- ===== src/Catalog/Order.antt =====
-- The order in which front/src/app/productos/ProductosClient.tsx shows the products.
use go_moda_mayor.Prelude.{
  ℕ, ◌≡◌, refl, ◌≤◌, ◌∙◌, List, [], ◌∷◌, map, arith, ◌==◌, ltb, keep, All, Bool-cases, inl, inr,
}
use go_moda_mayor.Catalog.{
  CatalogProduct, Stocked, with_stock, compute_total_stock, insert_by_stock, sort_by_stock,
  items_with_stock,
}

module _ {F : Type 0} where
  abbrev pub AtMost : ℕ → List (Stocked F) → Type 0
  AtMost n qs = All (λ q. q.total_stock ≤ n) qs

  -- Each product is followed by products with no more stock.
  abbrev pub IsDescending : List (Stocked F) → Type 0
  IsDescending [] = Unit
  IsDescending (p ∷ ps) = AtMost p.total_stock ps × IsDescending ps

  AtMost-insert_by_stock :
      (n : ℕ) (p : Stocked F) (qs : List (Stocked F))
      → p.total_stock ≤ n
      → AtMost n qs
      → AtMost n (insert_by_stock p qs)
  unfolding insert_by_stock
  AtMost-insert_by_stock n p [] h hs = (h, tt)
  AtMost-insert_by_stock n p (q ∷ qs) h (g, hs) =
      elim (Bool-cases (ltb p.total_stock q.total_stock)) [
        | inl e ↦ rw e (g, AtMost-insert_by_stock n p qs h hs)
        | inr e ↦ rw e (h, (g, hs))
      ]

  AtMost-mono : (m n : ℕ) (qs : List (Stocked F)) → m ≤ n → AtMost m qs → AtMost n qs
  AtMost-mono m n [] le h = tt
  AtMost-mono m n (q ∷ qs) le (h, hs) = (omega (arith, le, h), AtMost-mono m n qs le hs)

  insert_by_stock-IsDescending :
      (p : Stocked F) (qs : List (Stocked F))
      → IsDescending qs
      → IsDescending (insert_by_stock p qs)
  unfolding insert_by_stock
  insert_by_stock-IsDescending p [] d = (tt, tt)
  insert_by_stock-IsDescending p (q ∷ qs) (h, d) =
      elim (Bool-cases (ltb p.total_stock q.total_stock)) [
        | inl e ↦ rw e (
          AtMost-insert_by_stock q.total_stock p qs (ground arith) h,
          insert_by_stock-IsDescending p qs d,
        )
        | inr e ↦
            let le : q.total_stock ≤ p.total_stock = ground arith in
            rw e ((le, AtMost-mono q.total_stock p.total_stock qs le h), (h, d))
      ]

  sort_by_stock-IsDescending : (ps : List (Stocked F)) → IsDescending (sort_by_stock ps)
  unfolding sort_by_stock
  sort_by_stock-IsDescending [] = tt
  sort_by_stock-IsDescending (p ∷ ps) =
      insert_by_stock-IsDescending p (sort_by_stock ps) (sort_by_stock-IsDescending ps)

  -- The products with just `n` in stock.
  abbrev stocked : ℕ → List (Stocked F) → List (Stocked F)
  stocked n qs = keep (λ q. q.total_stock == n) qs

  stocked-insert_by_stock :
      (n : ℕ) (p : Stocked F) (qs : List (Stocked F))
      → stocked n (insert_by_stock p qs) ≡ stocked n (p ∷ qs)
  unfolding insert_by_stock
  stocked-insert_by_stock n p [] = refl
  stocked-insert_by_stock n p (q ∷ qs) = ground (arith, stocked-insert_by_stock n p qs)

  stocked-sort_by_stock :
      (n : ℕ) (ps : List (Stocked F)) → stocked n (sort_by_stock ps) ≡ stocked n ps
  unfolding sort_by_stock
  stocked-sort_by_stock n [] = refl
  stocked-sort_by_stock n (p ∷ ps) =
      stocked-insert_by_stock n p (sort_by_stock ps) ∙ (ground (arith, stocked-sort_by_stock n ps))

  products_of-stocked :
      (n : ℕ) (ps : List (CatalogProduct F))
      → map (λ q. q.product) (stocked n (map with_stock ps))
        ≡ keep (λ p. compute_total_stock p == n) ps
  products_of-stocked n [] = refl
  products_of-stocked n (p ∷ ps) = elim (Bool-cases (compute_total_stock p == n)) [
    | inl e ↦ rw (e, products_of-stocked n ps) refl
    | inr e ↦ rw (e, products_of-stocked n ps) refl
  ]

  -- The products that a fetch gives are shown with the most stock first; for every number, those with
  -- just that number in stock are exactly those of the fetch, in the order of the server.
  pub items_with_stock_lem :
      (ps : List (CatalogProduct F))
      → IsDescending (items_with_stock ps)
        × ((n : ℕ)
            → map (λ q. q.product) (keep (λ q. q.total_stock == n) (items_with_stock ps))
              ≡ keep (λ p. compute_total_stock p == n) ps)
  unfolding items_with_stock
  items_with_stock_lem ps = (
    sort_by_stock-IsDescending (map with_stock ps),
    λ n. rw (stocked-sort_by_stock n (map with_stock ps)) (products_of-stocked n ps),
  )
