-- ===== src/CartModal/Tiers.antt =====
-- The tier with whose prices front/src/components/CartModal.tsx compares.
use mathlib.Core.Path.{subst}
use go_moda_mayor.Prelude.{
  ◌≡◌, sym, ◌≤◌, ◌<◌, true, Option, none, some, List, [], ◌∷◌, arith, keep, All, Within,
  Option-cases, inl, inr,
}
use go_moda_mayor.Prelude.Sort.{
  first, sort_by, All-sort_by, All-keep_if, keep-All_if, All-mono, All-Within, All-Within_self,
  Within-sort_by, sort_by-Least,
}
use go_moda_mayor.Summary.{SummaryTier}
use go_moda_mayor.CartModal.{by_order, by_minimum, is_below, previous_tier}

module _ {F : Type 0} (current : SummaryTier F) (tiers : List (SummaryTier F)) where
  -- The active tiers in order, those below the current one.
  abbrev below : List (SummaryTier F)
  below = keep (is_below current) (sort_by by_order (keep (λ t. t.active) tiers))

  All-below :
      (P : SummaryTier F → Type 0)
      → All P below
      → All (λ t. t.active ≡ true → is_below current t ≡ true → P t) tiers
  All-below P h =
      let sorted = sort_by by_order (keep (λ t. t.active) tiers) in
      All-keep_if (λ t. is_below current t ≡ true → P t) (λ t. t.active) tiers
        ((All-sort_by by_order (λ t. is_below current t ≡ true → P t)
            (keep (λ t. t.active) tiers)).0
          (All-keep_if P (is_below current) sorted h))

  below-All :
      (P : SummaryTier F → Type 0)
      → All (λ t. t.active ≡ true → is_below current t ≡ true → P t) tiers
      → All P below
  below-All P h =
      let sorted = sort_by by_order (keep (λ t. t.active) tiers) in
      keep-All_if P (is_below current) sorted (
        (All-sort_by by_order (λ t. is_below current t ≡ true → P t) (keep (λ t. t.active) tiers)).1
          (keep-All_if (λ t. is_below current t ≡ true → P t) (λ t. t.active) tiers h))

  -- What is said of a previous tier: it is listed, active and below the current one.
  abbrev pub IsBelow : SummaryTier F → Type 0
  IsBelow p = Within p tiers × (p.active ≡ true) × (p.min_quantity < current.min_quantity)

  below-IsBelow : All IsBelow below
  below-IsBelow = below-All IsBelow (
      All-mono (λ t. Within t tiers) (λ t. t.active ≡ true → is_below current t ≡ true → IsBelow t)
        tiers (λ t w a b. (w, a, ground arith)) (All-Within_self tiers))

  abbrev pub IsPrevious : Option (SummaryTier F) → Type 0
  IsPrevious none = All (λ t. t.active ≡ true → current.min_quantity ≤ t.min_quantity) tiers
  IsPrevious (some p) =
      IsBelow p
      × All
          (λ t.
            t.active ≡ true
            → t.min_quantity < current.min_quantity
            → t.min_quantity ≤ p.min_quantity)
          tiers

  none-IsPrevious : first (sort_by by_minimum below) ≡ none → IsPrevious none
  none-IsPrevious e =
      All-mono (λ t. t.active ≡ true → is_below current t ≡ true → ⊥)
        (λ t. t.active ≡ true → current.min_quantity ≤ t.min_quantity) tiers
        (λ t no a. ground (arith, no a))
        (All-below (λ t. ⊥)
          ((All-sort_by by_minimum (λ t. ⊥) below).0 (no_first (sort_by by_minimum below) e)))
    where
      no_first : (ts : List (SummaryTier F)) → first ts ≡ none → All (λ t. ⊥) ts
      no_first [] e = tt
      no_first (t ∷ ts) e = absurd (cc)

  some-IsPrevious :
      (p : SummaryTier F) → first (sort_by by_minimum below) ≡ some p → IsPrevious (some p)
  some-IsPrevious p e = (
    All-Within IsBelow below p below-IsBelow (Within-sort_by by_minimum below p e),
    All-mono (λ t. t.active ≡ true → is_below current t ≡ true → by_minimum p t ≡ true)
        (λ t.
          t.active ≡ true → t.min_quantity < current.min_quantity → t.min_quantity ≤ p.min_quantity)
        tiers (λ t f a b. let least = f a (ground arith) in ground arith)
        (All-below (λ t. by_minimum p t ≡ true)
          (sort_by-Least by_minimum (λ a b n. ground arith) (λ a b c q r. ground arith) below p e)),
  )

  -- The previous tier is listed, active and below the current one, and no active tier has a minimum
  -- between the two; if there is no previous tier, no active tier has a minimum below the current one.
  pub previous_tier-IsPrevious : IsPrevious (previous_tier current tiers)
  unfolding previous_tier
  previous_tier-IsPrevious = elim (Option-cases (first (sort_by by_minimum below))) [
    | inl e ↦ subst IsPrevious (sym e) (none-IsPrevious e)
    | inr (p, e) ↦ subst IsPrevious (sym e) (some-IsPrevious p e)
  ]
