-- ===== src/SellerCarts/Hint/Next.antt =====
-- The next tier of front/src/app/vendedora/carritos/page.tsx among all tiers.
use mathlib.Core.Path.{subst}
use go_moda_mayor.Prelude.{
  ℕ, ◌+◌, ◌≡◌, refl, ap, ◌≤◌, ◌<◌, true, false, inl, inr, Option, none, some, List, [], ◌∷◌, ltb,
  ◌==◌, arith, find, keep, All, Within, Bool-cases,
}
use go_moda_mayor.Prelude.Sort.{
  some_injective, first, sort_by, All-sort_by, All-keep_if, keep-All_if, All-mono, All-Within,
  All-Within_self, sort_by-Least,
}
use go_moda_mayor.Pricing.{PriceTier}
use go_moda_mayor.SellerCarts.Items.{CartItem}
use go_moda_mayor.SellerCarts.Hint.{
  TierHint, total_quantity, by_minimum, missing, hint_of, tier_hint,
}

module _ {F : Type 0} where
  abbrev AtMost : PriceTier F → List (PriceTier F) → Type 0
  AtMost t us = All (λ u. u.min_quantity ≤ t.min_quantity) us

  -- Where the first has the greatest minimum, only the first is found.
  module _ (total : ℕ) where
    abbrev Above : List (PriceTier F) → Option (PriceTier F) → Type 0
    Above ts none = All (λ u. u.min_quantity ≤ total) ts
    Above ts (some t) = Within t ts × (total < t.min_quantity) × AtMost t ts

    find-none :
        (n : ℕ) (ts : List (PriceTier F))
        → n ≤ total
        → All (λ u. u.min_quantity ≤ n) ts
        → find (λ u. ltb total u.min_quantity) ts ≡ none
    find-none n [] le h = refl
    find-none n (t ∷ ts) le (h, hs) =
        let above : ltb total t.min_quantity ≡ false = ground arith in
        rw above (find-none n ts le hs)

    find-Above :
        (t : PriceTier F) (ts : List (PriceTier F))
        → AtMost t (t ∷ ts)
        → Above (t ∷ ts) (find (λ u. ltb total u.min_quantity) (t ∷ ts))
    find-Above t ts h = elim (Bool-cases (ltb total t.min_quantity)) [
      | inl e ↦ rw e (inl refl, ground arith, h)
      | inr e ↦
          let le : t.min_quantity ≤ total = ground arith in
          rw (e, find-none t.min_quantity ts le h.1)
            (All-mono (λ u. u.min_quantity ≤ t.min_quantity) (λ u. u.min_quantity ≤ total) (t ∷ ts)
              (λ u k. omega arith) h)
    ]

    -- What is said of the next tier, and of the items that are missing: no active tier asks for more.
    abbrev pub IsTop : List (PriceTier F) → Option (PriceTier F × ℕ) → Type 0
    IsTop tiers none = All (λ u. u.active ≡ true → u.min_quantity ≤ total) tiers
    IsTop tiers (some (t, n)) =
        Within t tiers
        × (t.active ≡ true)
        × (total < t.min_quantity)
        × (total + n ≡ t.min_quantity)
        × All (λ u. u.active ≡ true → u.min_quantity ≤ t.min_quantity) tiers

    module _ (tiers : List (PriceTier F)) where
      abbrev actives : List (PriceTier F)
      actives = keep (λ t. t.active) tiers

      -- What all tiers in order have, all active ones have, and back.
      sorted-All :
          (P : PriceTier F → Type 0)
          → All P (sort_by by_minimum actives)
          → All (λ t. t.active ≡ true → P t) tiers
      sorted-All P h = All-keep_if P (λ t. t.active) tiers ((All-sort_by by_minimum P actives).0 h)

      All-sorted :
          (P : PriceTier F → Type 0)
          → All (λ t. t.active ≡ true → P t) tiers
          → All P (sort_by by_minimum actives)
      All-sorted P h = (All-sort_by by_minimum P actives).1 (keep-All_if P (λ t. t.active) tiers h)

      listed : All (λ t. Within t tiers × (t.active ≡ true)) (sort_by by_minimum actives)
      listed =
          All-sorted (λ t. Within t tiers × (t.active ≡ true))
            (All-mono (λ t. Within t tiers)
              (λ t. t.active ≡ true → Within t tiers × (t.active ≡ true)) tiers (λ t w a. (w, a))
              (All-Within_self tiers))

      missing-IsTop :
          (o : Option (PriceTier F))
          → Above (sort_by by_minimum actives) o
          → IsTop tiers (missing total o)
      missing-IsTop none h = sorted-All (λ u. u.min_quantity ≤ total) h
      missing-IsTop (some t) (w, a, h) =
          let (l, active) =
            All-Within (λ t. Within t tiers × (t.active ≡ true)) (sort_by by_minimum actives) t
              listed w in
          (l, active, a, omega arith, sorted-All (λ u. u.min_quantity ≤ t.min_quantity) h)

      hint_of-IsTop :
          (ts : List (PriceTier F)) (h : TierHint F)
          → sort_by by_minimum actives ≡ ts
          → hint_of total ts ≡ some h
          → IsTop tiers h.next_tier
      unfolding hint_of
      hint_of-IsTop [] h e k = cc
      hint_of-IsTop (t ∷ ts) h e k =
          let o = find (λ u. ltb total u.min_quantity) (t ∷ ts) in
          let first : first (sort_by by_minimum actives) ≡ some t = rw e refl in
          let least =
            sort_by-Least by_minimum (λ a b n. ground arith) (λ a b c q r. ground arith) actives t
              first in
          let top = (All-sort_by by_minimum (λ u. by_minimum t u ≡ true) actives).1 least in
          let most : AtMost t (t ∷ ts) =
            All-mono (λ u. by_minimum t u ≡ true) (λ u. u.min_quantity ≤ t.min_quantity) (t ∷ ts)
              (λ u k. ground arith) (rw e at top) in
          let above : Above (sort_by by_minimum actives) o = rw e (find-Above t ts most) in
          let same : missing total o ≡ h.next_tier = ap (λ h. h.next_tier) (some_injective k) in
          subst (IsTop tiers) same (missing-IsTop o above)

  -- When the indicator names a next tier, it is an active one above the quantity, and no active tier
  -- asks for more, though others may be nearer; the number of missing items reaches it. When it names
  -- none, no active tier is above the quantity.
  pub tier_hint-IsTop :
      (tiers : List (PriceTier F)) (items : List CartItem) (h : TierHint F)
      → tier_hint tiers items ≡ some h
      → IsTop (total_quantity items) tiers h.next_tier
  unfolding tier_hint
  tier_hint-IsTop tiers items h e = elim (Bool-cases (total_quantity items == 0)) [
    | inl z ↦ absurd (let no : none ≡ some h = rw z at e in cc)
    | inr z ↦ hint_of-IsTop (total_quantity items) tiers _ h refl (rw z at e)
  ]
