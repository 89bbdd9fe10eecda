-- ===== src/CartModal/Totals/Counted.antt =====
-- Which items the totals of front/src/components/CartModal.tsx count.
use go_moda_mayor.Prelude.{
  ℕ, ◌+◌, ◌≡◌, refl, sym, ◌∙◌, Bool, true, false, not, ◌&&◌, ◌||◌, List, [], ◌∷◌, arith, keep,
  if◌then◌else◌, reduce, keep-ext, keep-keep, reduce_skip, reduce-keep, ap,
}
use go_moda_mayor.StockCheck.{StockIssue}
use go_moda_mayor.CartModal.{PricedItem, Money, is_pending}
use go_moda_mayor.Pricing.{Number}
use go_moda_mayor.CartModal.Totals.{
  pending_items, visible_for_pricing, is_out_of_stock, confirmed_quantity, pending_quantity,
  total_quantity_including_pending, subtotal, total_savings,
}

module _ {F : Type 0} where
  abbrev pub sum_of : List (PricedItem F) → ℕ
  sum_of [] = 0
  sum_of (p ∷ ps) = p.qty + sum_of ps

  reduce-sum_of :
      (acc : ℕ) (ps : List (PricedItem F)) → reduce (λ acc p. acc + p.qty) acc ps ≡ acc + sum_of ps
  reduce-sum_of acc [] = omega arith
  reduce-sum_of acc (p ∷ ps) = reduce-sum_of (acc + p.qty) ps ∙ (omega arith)

  module _ (issues : List StockIssue) where
    -- The items that count: neither pending nor out of stock.
    abbrev pub counted : PricedItem F → Bool
    counted p = not (is_pending p.item) && not (is_out_of_stock issues p)

    -- The items that are out of stock and not pending.
    abbrev pub sold_out : PricedItem F → Bool
    sold_out p = not (is_pending p.item) && is_out_of_stock issues p

    abbrev skipped : PricedItem F → Bool
    skipped p = is_out_of_stock issues p || is_pending p.item

    keep-counted :
        (ps : List (PricedItem F))
        → keep (λ p. not (skipped p)) (visible_for_pricing ps) ≡ keep counted ps
    keep-counted ps =
        keep-keep (λ p. not (skipped p)) (λ p. not (is_pending p.item)) ps
        ∙ keep-ext (λ p. not (is_pending p.item) && not (skipped p)) counted ps
            (λ p. same (is_pending p.item) (is_out_of_stock issues p))
      where
        same : (a b : Bool) → (not a && not (b || a)) ≡ (not a && not b)
        same true b = refl
        same false true = refl
        same false false = refl

    pub confirmed_quantity-sum_of :
        (ps : List (PricedItem F)) → confirmed_quantity issues ps ≡ sum_of (keep counted ps)
    unfolding confirmed_quantity
    confirmed_quantity-sum_of ps =
        reduce_skip skipped (λ acc p. acc + p.qty) 0 (visible_for_pricing ps)
        ∙ reduce-sum_of 0 (keep (λ p. not (skipped p)) (visible_for_pricing ps))
        ∙ (rw (keep-counted ps) (omega arith))

    pending_quantity-sum_of :
        (ps : List (PricedItem F)) → pending_quantity ps ≡ sum_of (pending_items ps)
    unfolding pending_quantity
    pending_quantity-sum_of ps = reduce-sum_of 0 (pending_items ps) ∙ (omega arith)

    total_quantity-sum_of :
        (ps : List (PricedItem F))
        → total_quantity_including_pending issues ps
          ≡ sum_of (keep counted ps) + sum_of (pending_items ps)
    unfolding total_quantity_including_pending
    total_quantity-sum_of ps =
        let out = is_out_of_stock issues in
        let shown = reduce_skip out (λ acc p. acc + p.qty) 0 (visible_for_pricing ps) in
        rw
          (
            shown,
            reduce-sum_of 0 (keep (λ p. not (out p)) (visible_for_pricing ps)),
            keep-keep (λ p. not (out p)) (λ p. not (is_pending p.item)) ps,
          )
          (omega (arith, pending_quantity-sum_of ps))

    parts :
        (ps : List (PricedItem F))
        → sum_of ps
          ≡ sum_of (keep counted ps) + sum_of (pending_items ps) + sum_of (keep sold_out ps)
    parts [] = omega arith
    parts (p ∷ ps) = ground (arith, parts ps)

    total_quantity-eq :
        (ps : List (PricedItem F))
        → total_quantity_including_pending issues ps
          ≡ confirmed_quantity issues ps + pending_quantity ps
    total_quantity-eq ps =
        omega (
          arith,
          total_quantity-sum_of ps,
          confirmed_quantity-sum_of ps,
          pending_quantity-sum_of ps,
        )

    keep-keep_counted :
        (ps : List (PricedItem F)) → keep counted (keep counted ps) ≡ keep counted ps
    keep-keep_counted ps =
        keep-keep counted counted ps
        ∙ keep-ext (λ p. counted p && counted p) counted ps (λ p. both (counted p))
      where
        both : (b : Bool) → (b && b) ≡ b
        both true = refl
        both false = refl

    module _ ⦃n : Number F⦄ ⦃m : Money F⦄ where
      subtotal-counted :
          (ps : List (PricedItem F))
          → subtotal issues ps
            ≡ reduce (λ acc p. n.add acc p.line_final) (m.of_ℕ 0) (keep counted ps)
      unfolding subtotal
      subtotal-counted ps =
          let f = λ (acc : F) (p : PricedItem F). n.add acc p.line_final in
          reduce_skip skipped f (m.of_ℕ 0) (visible_for_pricing ps)
          ∙ ap (reduce f (m.of_ℕ 0)) (keep-counted ps)

      total_savings-counted :
          (ps : List (PricedItem F))
          → total_savings issues ps ≡ total_savings issues (keep counted ps)
      unfolding total_savings
      total_savings-counted ps =
          reduce-keep
            (λ acc p.
              if p.has_tier_discount && not (is_out_of_stock issues p) && not (is_pending p.item)
              then n.add acc (n.mul (n.sub p.original_unit p.unit_price) (m.of_ℕ p.qty))
              else acc)
            counted (λ acc p e. ground (arith, e)) (m.of_ℕ 0) ps

      -- The confirmed quantity, the subtotal and the savings are those of the cart without the items
      -- that are pending or out of stock. The confirmed quantity and the pending one add up to the
      -- total that includes the pending items, and what the cart has more than that is just the items
      -- that are out of stock and not pending.
      pub totals_lem :
          (ps : List (PricedItem F))
          → (confirmed_quantity issues ps ≡ confirmed_quantity issues (keep counted ps))
            × (subtotal issues ps ≡ subtotal issues (keep counted ps))
            × (total_savings issues ps ≡ total_savings issues (keep counted ps))
            × (total_quantity_including_pending issues ps
                ≡ confirmed_quantity issues ps + pending_quantity ps)
            × (sum_of ps ≡ total_quantity_including_pending issues ps + sum_of (keep sold_out ps))
      totals_lem ps = (
        confirmed_quantity-sum_of ps
            ∙ ap sum_of (sym (keep-keep_counted ps))
            ∙ sym (confirmed_quantity-sum_of (keep counted ps)),
        subtotal-counted ps
            ∙ ap (reduce (λ acc p. n.add acc p.line_final) (m.of_ℕ 0)) (sym (keep-keep_counted ps))
            ∙ sym (subtotal-counted (keep counted ps)),
        total_savings-counted ps,
        total_quantity-eq ps,
        omega (arith, total_quantity-sum_of ps, parts ps),
      )
