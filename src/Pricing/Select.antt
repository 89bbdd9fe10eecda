-- ===== src/Pricing/Select.antt =====
-- `getApplicableTier` of front/src/utils/priceCalculations.ts against a definition with no sort.
use mathlib.Core.Bool.{◌&&◌}
use go_moda_mayor.Prelude.{
  ℕ, ◌≤◌, ◌≡◌, refl, Bool, true, false, Option, none, some, List, [], ◌∷◌, arith, leb, or_else, inl,
  inr, ◌⊎◌, Bool-cases, Option-cases, keep, find, Within,
}
use go_moda_mayor.Pricing.{PriceTier, active_tiers, scan, or_default, get_applicable_tier}
use go_moda_mayor.Pricing.Sort.{
  IsSortedFrom, sort_by_order-IsSortedFrom, lowest, find-sort_by_order,
}

module _ {F : Type 0} where
  abbrev pub is_reached : ℕ → PriceTier F → Bool
  is_reached quantity t = leb t.min_quantity quantity

  -- The sorted loop: once a tier is chosen, no later one has a lower `order_index`.
  scan-some :
      (quantity : ℕ) (b : PriceTier F) (ts : List (PriceTier F))
      → IsSortedFrom b.order_index ts
      → scan quantity (some b) ts ≡ some b
  unfolding scan
  scan-some quantity b [] s = refl
  scan-some quantity b (t ∷ ts) (h, s) =
      ground (arith, scan-some quantity b ts (lower b.order_index t ts h s))
    where
      lower :
          (low : ℕ) (t : PriceTier F) (ts : List (PriceTier F))
          → low ≤ t.order_index
          → IsSortedFrom t.order_index ts
          → IsSortedFrom low ts
      lower low t [] h s = tt
      lower low t (u ∷ us) h (k, s) = (omega arith, s)

  pub scan-none :
      (low quantity : ℕ) (ts : List (PriceTier F))
      → IsSortedFrom low ts
      → scan quantity none ts ≡ find (is_reached quantity) ts
  unfolding scan
  scan-none low quantity [] s = refl
  scan-none low quantity (t ∷ ts) (h, s) =
      ground (arith, scan-some quantity t ts s, scan-none t.order_index quantity ts s)

  lowest-keep :
      (p q : PriceTier F → Bool) (ts : List (PriceTier F))
      → lowest p (keep q ts) ≡ lowest (λ t. q t && p t) ts
  unfolding lowest
  lowest-keep p q [] = refl
  lowest-keep p q (t ∷ ts) = elim (Bool-cases (q t)) [
    | inl e ↦ rw (e, lowest-keep p q ts)
    | inr e ↦ rw (e, lowest-keep p q ts)
  ]

  pub find-active_tiers :
      (p : PriceTier F → Bool) (ts : List (PriceTier F))
      → find p (active_tiers ts) ≡ lowest (λ t. t.active && p t) ts
  unfolding active_tiers
  find-active_tiers p ts =
      rw (find-sort_by_order p (keep (λ t. t.active) ts)) (lowest-keep p (λ t. t.active) ts)

  or_default-eq :
      (o : Option (PriceTier F)) (ts : List (PriceTier F))
      → or_default o ts ≡ or_else o (find (λ t. t.is_default) ts)
  or_default-eq none ts = refl
  or_default-eq (some t) ts = refl

  -- For every list of tiers and quantity, the filter, sort and loop of `getApplicableTier` choose the
  -- active tier with the lowest `order_index` whose minimum the quantity reaches, the first of them
  -- in the list on a tie; if there is none, the active default tier, chosen alike; else null.
  pub get_applicable_tier-eq-lowest :
      (tiers : List (PriceTier F)) (quantity : ℕ)
      → get_applicable_tier tiers quantity
        ≡ or_else
            (lowest (λ t. t.active && is_reached quantity t) tiers)
            (lowest (λ t. t.active && t.is_default) tiers)
  unfolding get_applicable_tier
  get_applicable_tier-eq-lowest [] quantity = unfold lowest in refl
  get_applicable_tier-eq-lowest (t ∷ ts) quantity =
      let sorted = active_tiers (t ∷ ts) in
      rw (
        or_default-eq (scan quantity none sorted) sorted,
        scan-none 0 quantity sorted
            (unfold active_tiers in sort_by_order-IsSortedFrom (keep (λ t. t.active) (t ∷ ts))),
        find-active_tiers (is_reached quantity) (t ∷ ts),
        find-active_tiers (λ t. t.is_default) (t ∷ ts),
      )

  -- What makes a tier the chosen one for a test.
  pub record IsLowest (p : PriceTier F → Bool) (ts : List (PriceTier F)) (v : PriceTier F)
      : Type 0 where
    pub listed : Within v ts
    pub passes : p v ≡ true
    pub least : (u : PriceTier F) → Within u ts → p u ≡ true → v.order_index ≤ u.order_index

  module _ (p : PriceTier F → Bool) where
    pub lowest-none :
        (ts : List (PriceTier F))
        → lowest p ts ≡ none
        → (u : PriceTier F) → Within u ts
        → p u ≡ false
    unfolding lowest
    lowest-none [] e u m = absurd m.1
    lowest-none (t ∷ ts) e u (inl same) = rw same (ground arith)
    lowest-none (t ∷ ts) e u (inr m) = lowest-none ts (ground arith) u m

    lowest-Within :
        (ts : List (PriceTier F)) (v : PriceTier F)
        → lowest p ts ≡ some v
        → Within v ts × (p v ≡ true)
    unfolding lowest
    lowest-Within [] v e = cc
    lowest-Within (t ∷ ts) v e = elim (Option-cases (lowest p ts)) [
      | inl none_left ↦ ground arith
      | inr (w, rest) ↦ ground (arith, lowest-Within ts w rest)
    ]

    lowest-least :
        (ts : List (PriceTier F)) (v u : PriceTier F)
        → lowest p ts ≡ some v
        → Within u ts
        → p u ≡ true
        → v.order_index ≤ u.order_index
    unfolding lowest
    lowest-least [] v u e m h = cc
    lowest-least (t ∷ ts) v u e (inl same) h = elim (Option-cases (lowest p ts)) [
      | inl none_left ↦ ground arith
      | inr (w, rest) ↦ ground arith
    ]
    lowest-least (t ∷ ts) v u e (inr m) h = elim (Option-cases (lowest p ts)) [
      | inl none_left ↦ ground (arith, lowest-none ts none_left u m)
      | inr (w, rest) ↦ ground (arith, lowest-least ts w u rest m h)
    ]

    pub lowest-IsLowest :
        (ts : List (PriceTier F)) (v : PriceTier F) → lowest p ts ≡ some v → IsLowest p ts v
    lowest-IsLowest ts v e =
        let (listed, passes) = lowest-Within ts v e in
        record { listed = listed; passes = passes; least = λ u m h. lowest-least ts v u e m h }

  abbrev pub NonePasses : (PriceTier F → Bool) → List (PriceTier F) → Type 0
  NonePasses p ts = (u : PriceTier F) → Within u ts → p u ≡ false

  -- What `getApplicableTier` owes its caller, for each kind of result.
  abbrev pub IsChoice : List (PriceTier F) → ℕ → Option (PriceTier F) → Type 0
  IsChoice tiers quantity none =
      NonePasses (λ t. t.active && is_reached quantity t) tiers
      × NonePasses (λ t. t.active && t.is_default) tiers
  IsChoice tiers quantity (some v) =
      IsLowest (λ t. t.active && is_reached quantity t) tiers v
      ⊎ (NonePasses (λ t. t.active && is_reached quantity t) tiers
          × IsLowest (λ t. t.active && t.is_default) tiers v)

  -- A chosen tier is in the list, active, and either reached by the quantity and of the lowest
  -- `order_index` among the active tiers so reached, or a default one, of the lowest `order_index`
  -- among the active default tiers, where no active tier is reached. Null means that no active tier
  -- is reached and none is the default.
  pub get_applicable_tier-IsChoice :
      (tiers : List (PriceTier F)) (quantity : ℕ)
      → IsChoice tiers quantity (get_applicable_tier tiers quantity)
  get_applicable_tier-IsChoice tiers quantity =
      let reached : PriceTier F → Bool = λ t. t.active && is_reached quantity t in
      let default : PriceTier F → Bool = λ t. t.active && t.is_default in
      rw (get_applicable_tier-eq-lowest tiers quantity)
        (elim (Option-cases (lowest reached tiers)) [
          | inr (v, e) ↦ rw e (inl (lowest-IsLowest reached tiers v e))
          | inl e ↦ elim (Option-cases (lowest default tiers)) [
            | inr (v, d) ↦
                rw (e, d) (inr (lowest-none reached tiers e, lowest-IsLowest default tiers v d))
            | inl d ↦ rw (e, d) (lowest-none reached tiers e, lowest-none default tiers d)
          ]
        ])
