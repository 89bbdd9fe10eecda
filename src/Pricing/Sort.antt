-- ===== src/Pricing/Sort.antt =====
-- The stable sort by `order_index` in front/src/utils/priceCalculations.ts: order, content, and what
-- a search in the sorted list finds.
use mathlib.Core.List.{Perm}
use mathlib.Core.List.Perm
use go_moda_mayor.Prelude.{
  ℕ, ◌≤◌, ◌≡◌, refl, Bool, Option, none, some, List, [], ◌∷◌, arith, leb, if◌then◌else◌, inl, inr,
  Bool-cases, Option-cases, find,
}
use go_moda_mayor.Pricing.{PriceTier, insert_by_order, sort_by_order}

module _ {F : Type 0} where
  -- No tier stands before one with a lower `order_index`, and none is below `low`.
  abbrev pub IsSortedFrom : ℕ → List (PriceTier F) → Type 0
  IsSortedFrom low [] = Unit
  IsSortedFrom low (t ∷ ts) = (low ≤ t.order_index) × IsSortedFrom t.order_index ts

  insert_by_order-IsSortedFrom :
      (low : ℕ) (t : PriceTier F) (us : List (PriceTier F))
      → low ≤ t.order_index
      → IsSortedFrom low us
      → IsSortedFrom low (insert_by_order t us)
  unfolding insert_by_order
  insert_by_order-IsSortedFrom low t [] h s = (h, tt)
  insert_by_order-IsSortedFrom low t (u ∷ us) h (k, s) =
      ground (arith, insert_by_order-IsSortedFrom u.order_index t us)

  pub sort_by_order-IsSortedFrom : (ts : List (PriceTier F)) → IsSortedFrom 0 (sort_by_order ts)
  unfolding sort_by_order
  sort_by_order-IsSortedFrom [] = tt
  sort_by_order-IsSortedFrom (t ∷ ts) =
      insert_by_order-IsSortedFrom 0 t (sort_by_order ts) (omega arith)
        (sort_by_order-IsSortedFrom ts)

  insert_by_order-perm :
      (t : PriceTier F) (us : List (PriceTier F)) → Perm (insert_by_order t us) (t ∷ us)
  unfolding insert_by_order
  insert_by_order-perm t [] = Perm.refl _
  insert_by_order-perm t (u ∷ us) = elim (Bool-cases (leb t.order_index u.order_index)) [
    | inl e ↦ rw e (Perm.refl _)
    | inr e ↦ rw e (Perm.trans (Perm.cons u (insert_by_order-perm t us)) (Perm.swap t u us))
  ]

  pub sort_by_order-perm : (ts : List (PriceTier F)) → Perm (sort_by_order ts) ts
  unfolding sort_by_order
  sort_by_order-perm [] = Perm.refl _
  sort_by_order-perm (t ∷ ts) =
      Perm.trans (insert_by_order-perm t (sort_by_order ts)) (Perm.cons t (sort_by_order-perm ts))

  -- The one with the lower `order_index`, the first one on a tie.
  abbrev pub prefer : PriceTier F → Option (PriceTier F) → PriceTier F
  prefer t none = t
  prefer t (some u) = if leb t.order_index u.order_index then t else u

  module _ (p : PriceTier F → Bool) where
    -- Of the tiers that pass the test, the first one among those with the lowest `order_index`.
    unfoldable pub lowest : List (PriceTier F) → Option (PriceTier F)
    lowest [] = none
    lowest (t ∷ ts) = if p t then some (prefer t (lowest ts)) else lowest ts

    find-le :
        (low : ℕ) (us : List (PriceTier F)) (v : PriceTier F)
        → IsSortedFrom low us
        → find p us ≡ some v
        → low ≤ v.order_index
    find-le low [] v s e = cc
    find-le low (u ∷ us) v (k, s) e = ground (arith, find-le u.order_index us v s)

    prefer-find :
        (t : PriceTier F) (us : List (PriceTier F))
        → IsSortedFrom t.order_index us
        → prefer t (find p us) ≡ t
    prefer-find t us s = elim (Option-cases (find p us)) [
      | inl e ↦ rw e
      | inr (v, e) ↦ rw e (ground (arith, find-le t.order_index us v s e))
    ]

    find-insert_by_order :
        (low : ℕ) (t : PriceTier F) (us : List (PriceTier F))
        → IsSortedFrom low us
        → find p (insert_by_order t us) ≡ (if p t then some (prefer t (find p us)) else find p us)
    unfolding insert_by_order
    find-insert_by_order low t [] s = refl
    find-insert_by_order low t (u ∷ us) (k, s) =
        elim (Bool-cases (leb t.order_index u.order_index)) [
          | inl e ↦ rw (e, prefer-find t (u ∷ us) (ground arith, s)) refl
          | inr e ↦ ground (arith, find-insert_by_order u.order_index t us s)
        ]

    pub find-sort_by_order : (ts : List (PriceTier F)) → find p (sort_by_order ts) ≡ lowest ts
    unfolding sort_by_order lowest
    find-sort_by_order [] = refl
    find-sort_by_order (t ∷ ts) = rw (
      find-insert_by_order 0 t (sort_by_order ts) (sort_by_order-IsSortedFrom ts),
      find-sort_by_order ts,
    )
