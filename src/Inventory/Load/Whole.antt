-- ===== src/Inventory/Load/Whole.antt =====
-- What a load of front/src/app/admin/inventario/page.tsx shows.
use mathlib.Core.Path.{subst}
use go_moda_mayor.Net.{Reply, failed, refused, garbled, accepted}
use go_moda_mayor.Orders.{Result, ok, thrown}
use go_moda_mayor.Prelude.{
  ℕ, ◌+◌, ◌≡◌, refl, sym, ap, ◌∙◌, true, false, ◌⊎◌, inl, inr, Option, some, List, [], ◌∷◌, String,
  get_or, any, any-ext, Bool, is_some, reduce, arith,
}
use go_moda_mayor.Inventory.{
  LocationStock, InventoryVariant, InventoryProduct, get_stock_for_location, stock_of,
  get_total_stock_for_product, reduce_stock,
}
use go_moda_mayor.Inventory.Load.{
  Items, items, Inquiry, InventoryPage, variant_with, product_with, with_variants, after_variants,
  promise_all, enrich, shows_products, after_products, load_inventory,
}
use go_moda_mayor.Inventory.Load.Together.{
  is_thrown, Each, Each-mono, Each-none_thrown, promise_all-Settled, promise_all-thrown,
}

-- The stock at a place in an answer of the server; an answer that is not `ok` counts as none.
abbrev pub stock_in : Reply (Option (List LocationStock)) → String → ℕ
stock_in (accepted rows) place = get_stock_for_location (some (get_or rows [])) place
stock_in (failed m) place = 0
stock_in (refused status e) place = 0
stock_in (garbled m) place = 0

-- No answer, or an `ok` one that cannot be read.
abbrev pub is_unread : {A : Type 0} → Reply A → Bool
is_unread (failed m) = true
is_unread (refused status e) = false
is_unread (garbled m) = true
is_unread (accepted x) = false

variant_with-thrown :
    (v : InventoryVariant) (r : Reply (Option (List LocationStock)))
    → is_thrown (variant_with v r) ≡ is_unread r
unfolding variant_with
variant_with-thrown v (failed m) = refl
variant_with-thrown v (refused status e) = refl
variant_with-thrown v (garbled m) = refl
variant_with-thrown v (accepted rows) = refl

product_with-thrown :
    (p : InventoryProduct) (r : Reply (Option (List LocationStock)))
    → is_thrown (product_with p r) ≡ is_unread r
unfolding product_with
product_with-thrown p (failed m) = refl
product_with-thrown p (refused status e) = refl
product_with-thrown p (garbled m) = refl
product_with-thrown p (accepted rows) = refl

with_variants-thrown :
    (p : InventoryProduct) (r : Result (List InventoryVariant))
    → is_thrown (with_variants p r) ≡ is_thrown r
unfolding with_variants
with_variants-thrown p (ok vs) = refl
with_variants-thrown p (thrown m) = refl

ok_injective : {A : Type 0} {x y : A} → ok x ≡ ok y → x ≡ y
ok_injective e = cc

abbrev place_stock : String → InventoryVariant → ℕ
place_stock place w = get_stock_for_location w.stocks place

none_listed : (place : String) → get_stock_for_location (some []) place ≡ 0
unfolding get_stock_for_location stock_of
none_listed place = refl

variant_with-stock_in :
    (v w : InventoryVariant) (r : Reply (Option (List LocationStock))) (place : String)
    → variant_with v r ≡ ok w
    → get_stock_for_location w.stocks place ≡ stock_in r place
unfolding variant_with
variant_with-stock_in v w (failed m) place e = absurd (cc)
variant_with-stock_in v w (garbled m) place e = absurd (cc)
variant_with-stock_in v w (refused status m) place e =
    ap (place_stock place) (sym (ok_injective e)) ∙ none_listed place
variant_with-stock_in v w (accepted rows) place e = ap (place_stock place) (sym (ok_injective e))

product_with-stock_in :
    (p p' : InventoryProduct) (r : Reply (Option (List LocationStock))) (place : String)
    → product_with p r ≡ ok p'
    → (p'.id ≡ p.id) × (get_total_stock_for_product p' place ≡ stock_in r place)
unfolding product_with get_total_stock_for_product reduce_stock
product_with-stock_in p p' (failed m) place e = absurd (cc)
product_with-stock_in p p' (garbled m) place e = absurd (cc)
product_with-stock_in p p' (refused status m) place e =
    subst (λ (x : InventoryProduct). (x.id ≡ p.id) × (get_total_stock_for_product x place ≡ 0))
      (ok_injective e) (refl, none_listed place)
product_with-stock_in p p' (accepted rows) place e =
    subst
      (λ (x : InventoryProduct).
        (x.id ≡ p.id)
        × (get_total_stock_for_product x place
            ≡ get_stock_for_location (some (get_or rows [])) place))
      (ok_injective e) (refl, refl)

module _ (q : Inquiry) where
  abbrev pub sum_in : String → List InventoryVariant → ℕ
  sum_in place [] = 0
  sum_in place (v ∷ vs) = stock_in (q.variant_stocks v.id) place + sum_in place vs

  -- The stock of a product by the server: that of all its variants, or its own if it has none.
  abbrev pub server_stock : Reply (List InventoryVariant) → ℕ → String → ℕ
  server_stock (accepted (v ∷ vs)) id place = sum_in place (v ∷ vs)
  server_stock (accepted []) id place = stock_in (q.product_stocks id) place
  server_stock (refused status e) id place = stock_in (q.product_stocks id) place
  server_stock (failed m) id place = 0
  server_stock (garbled m) id place = 0

  abbrev Came : InventoryVariant → InventoryVariant → Type 0
  Came v w = variant_with v (q.variant_stocks v.id) ≡ ok w

  reduce-sum_in :
      (place : String) (vs ws : List InventoryVariant) (total : ℕ)
      → Each Came vs ws
      → reduce (λ sum w. sum + get_stock_for_location w.stocks place) total ws
        ≡ total + sum_in place vs
  reduce-sum_in place [] [] total h = omega arith
  reduce-sum_in place [] (w ∷ ws) total h = absurd h
  reduce-sum_in place (v ∷ vs) [] total h = absurd h
  reduce-sum_in place (v ∷ vs) (w ∷ ws) total (h, hs) =
      let e = variant_with-stock_in v w (q.variant_stocks v.id) place h in
      let rest = reduce-sum_in place vs ws (total + get_stock_for_location w.stocks place) hs in
      rest ∙ (omega (arith, e))

  reduce_stock-sum_in :
      (own : Option (List LocationStock)) (place : String) (v : InventoryVariant)
      (vs ws : List InventoryVariant)
      → Each Came (v ∷ vs) ws
      → reduce_stock own place ws ≡ sum_in place (v ∷ vs)
  unfolding reduce_stock
  reduce_stock-sum_in own place v vs [] h = absurd h
  reduce_stock-sum_in own place v vs (w ∷ ws) h =
      reduce-sum_in place (v ∷ vs) (w ∷ ws) 0 h ∙ (omega arith)

  -- A product that is shown, against the server's.
  abbrev pub IsLoaded : InventoryProduct → InventoryProduct → Type 0
  IsLoaded p p' =
      (p'.id ≡ p.id)
      × ((place : String)
          → get_total_stock_for_product p' place ≡ server_stock (q.variants p.id) p.id place)

  with_variants-IsLoaded :
      (p p' : InventoryProduct) (v : InventoryVariant) (vs : List InventoryVariant)
      (r : Result (List InventoryVariant))
      → ((ws : List InventoryVariant) × (r ≡ ok ws) × Each Came (v ∷ vs) ws)
        ⊎ ((m : String) × (r ≡ thrown m)
            × (any (λ w. is_thrown (variant_with w (q.variant_stocks w.id))) (v ∷ vs) ≡ true))
      → with_variants p r ≡ ok p'
      → (p'.id ≡ p.id)
        × ((place : String) → get_total_stock_for_product p' place ≡ sum_in place (v ∷ vs))
  unfolding with_variants get_total_stock_for_product
  with_variants-IsLoaded p p' v vs (thrown m) settled e = absurd (cc)
  with_variants-IsLoaded p p' v vs (ok us) (inr (m, bad, _)) e = absurd (cc)
  with_variants-IsLoaded p p' v vs (ok us) (inl (ws, same, each)) e =
      let us_each : Each Came (v ∷ vs) us =
        subst (λ (xs : List InventoryVariant). Each Came (v ∷ vs) xs) (sym (ok_injective same))
          each in
      subst
        (λ (x : InventoryProduct).
          (x.id ≡ p.id)
          × ((place : String) → get_total_stock_for_product x place ≡ sum_in place (v ∷ vs)))
        (ok_injective e) (refl, λ place. reduce_stock-sum_in p.stocks place v vs us us_each)

  after_variants-IsLoaded :
      (p p' : InventoryProduct) (r : Reply (List InventoryVariant))
      → after_variants q p r ≡ ok p'
      → (p'.id ≡ p.id)
        × ((place : String) → get_total_stock_for_product p' place ≡ server_stock r p.id place)
  unfolding after_variants
  after_variants-IsLoaded p p' (failed m) e = absurd (cc)
  after_variants-IsLoaded p p' (garbled m) e = absurd (cc)
  after_variants-IsLoaded p p' (refused status m) e = (
    (product_with-stock_in p p' (q.product_stocks p.id) "" e).0,
    λ place. (product_with-stock_in p p' (q.product_stocks p.id) place e).1,
  )
  after_variants-IsLoaded p p' (accepted []) e = (
    (product_with-stock_in p p' (q.product_stocks p.id) "" e).0,
    λ place. (product_with-stock_in p p' (q.product_stocks p.id) place e).1,
  )
  after_variants-IsLoaded p p' (accepted (v ∷ vs)) e =
      with_variants-IsLoaded p p' v vs _
        (promise_all-Settled q.first_of (λ w. variant_with w (q.variant_stocks w.id)) (v ∷ vs)) e

  -- Some request for the product is not answered, or its `ok` answer cannot be read: that for its
  -- variants, those for the stocks of its variants, or, if it has none, that for its own. A refused
  -- request for the variants counts as none, and a refused one for stocks as no stock.
  abbrev pub is_lost_with : InventoryProduct → Reply (List InventoryVariant) → Bool
  is_lost_with p (failed m) = true
  is_lost_with p (garbled m) = true
  is_lost_with p (refused status e) = is_unread (q.product_stocks p.id)
  is_lost_with p (accepted []) = is_unread (q.product_stocks p.id)
  is_lost_with p (accepted (v ∷ vs)) = any (λ w. is_unread (q.variant_stocks w.id)) (v ∷ vs)

  abbrev pub is_lost : InventoryProduct → Bool
  is_lost p = is_lost_with p (q.variants p.id)

  after_variants-thrown :
      (p : InventoryProduct) (r : Reply (List InventoryVariant))
      → is_thrown (after_variants q p r) ≡ is_lost_with p r
  unfolding after_variants
  after_variants-thrown p (failed m) = refl
  after_variants-thrown p (garbled m) = refl
  after_variants-thrown p (refused status e) = product_with-thrown p (q.product_stocks p.id)
  after_variants-thrown p (accepted []) = product_with-thrown p (q.product_stocks p.id)
  after_variants-thrown p (accepted (v ∷ vs)) =
      let f : InventoryVariant → Result InventoryVariant =
        λ w. variant_with w (q.variant_stocks w.id) in
      with_variants-thrown p (promise_all q.first_of f (v ∷ vs))
      ∙ promise_all-thrown q.first_of f (v ∷ vs)
      ∙ any-ext (λ w. is_thrown (f w)) (λ w. is_unread (q.variant_stocks w.id)) (v ∷ vs)
          (λ w. variant_with-thrown w (q.variant_stocks w.id))

  any-is_lost : (ps : List InventoryProduct) → any (λ p. is_thrown (enrich q p)) ps ≡ any is_lost ps
  unfolding enrich
  any-is_lost ps =
      any-ext (λ p. is_thrown (after_variants q p (q.variants p.id))) is_lost ps
        (λ p. after_variants-thrown p (q.variants p.id))

  -- All products are loaded, and no request was lost; or one was.
  abbrev pub Loads : List InventoryProduct → InventoryPage → InventoryPage → Type 0
  Loads ps s t =
      (t.loading ≡ false)
      × (((any is_lost ps ≡ false) × Each IsLoaded ps t.products × (t.error ≡ s.error))
          ⊎ ((any is_lost ps ≡ true) × (t.products ≡ s.products) × (is_some t.error ≡ true)))

  shows_products-Loads :
      (ps : List InventoryProduct) (r : Result (List InventoryProduct)) (s : InventoryPage)
      → ((ys : List InventoryProduct) × (r ≡ ok ys) × Each (λ p p'. enrich q p ≡ ok p') ps ys)
        ⊎ ((m : String) × (r ≡ thrown m) × (any (λ p. is_thrown (enrich q p)) ps ≡ true))
      → Loads ps s (shows_products r s)
  unfolding shows_products
  shows_products-Loads ps r s (inl (ys, e, each)) = rw e (
    refl,
    inl (
      sym (any-is_lost ps) ∙ Each-none_thrown (enrich q) ps ys each,
      Each-mono (λ p p'. enrich q p ≡ ok p') IsLoaded ps ys
          (λ p p'. unfold enrich in after_variants-IsLoaded p p' (q.variants p.id)) each,
      refl,
    ),
  )
  shows_products-Loads ps r s (inr (m, e, bad)) =
      rw e (refl, inr (sym (any-is_lost ps) ∙ bad, refl, refl))

  -- When the server lists the products: if all requests for them are answered and can be read, a load
  -- shows them all, in order, with at every place the sum of the stocks that the server answers for
  -- the variants of each, or its own if it has no variants or the request for them is refused; a
  -- refused request for stocks counts as no stock. If one of these requests is not answered or cannot
  -- be read, the list is as it was and an error is shown. The page is no longer loading.
  pub load_inventory_lem :
      (ps : List InventoryProduct) (s : InventoryPage)
      → q.products ≡ accepted (items ps)
      → Loads ps s (load_inventory q s)
  unfolding load_inventory after_products
  load_inventory_lem ps s e =
      subst (λ (r : Reply Items). Loads ps s (after_products q r s)) (sym e)
        (shows_products-Loads ps _ s (promise_all-Settled q.first_of (enrich q) ps))
