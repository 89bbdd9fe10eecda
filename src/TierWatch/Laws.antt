-- ===== src/TierWatch/Laws.antt =====
-- What the effect of front/src/hooks/useCartTierNotifications.ts shows, and that it does not repeat.
use go_moda_mayor.Prelude.{
  ℕ, ◌≡◌, refl, ◌≢◌, true, false, Option, none, some, [], ◌∷◌, ◌++◌, arith, inl, inr, Bool-cases,
}
use go_moda_mayor.Pricing.{Number}
use go_moda_mayor.PriceQueue.{Notification}
use go_moda_mayor.Summary.{SummaryTier, NextTier, CartSummary, tier_id_of, is_near}
use go_moda_mayor.TierWatch.{
  WatchState, changed, show, show_near, show_unlocked, unlocked_note, effect,
}

module _ {F : Type 0} where
  -- Both parts of the effect see the same tier and quantity as the last time.
  show-fields :
      (m : Notification F) (s : WatchState F)
      → ((show m s).last_quantity ≡ s.last_quantity)
        × ((show m s).last_tier_id ≡ s.last_tier_id)
        × ((show m s).helper ≡ s.helper)
  unfolding show
  show-fields m s = elim (Bool-cases s.helper) [
    | inl h ↦ rw h (refl, refl, refl)
    | inr h ↦ rw h (refl, refl, refl)
  ]

  show_near-same : (t : Option NextTier) (s : WatchState F) → show_near t s.last_quantity s ≡ s
  unfolding show_near
  show_near-same none s = refl
  show_near-same (some t) s = ground arith

module _ {F : Type 0} where
  show_near-far :
      (t : Option NextTier) (quantity : ℕ) (s : WatchState F)
      → is_near t ≡ false
      → show_near t quantity s ≡ s
  unfolding show_near
  show_near-far none quantity s h = refl
  show_near-far (some t) quantity s h = rw h

changed-same : (o : Option ℕ) → changed o o ≡ false
changed-same none = refl
changed-same (some a) = ground arith

module _ {F : Type 0} ⦃n : Number F⦄ where
  show_unlocked-same :
      (tier : Option (SummaryTier F)) (s : WatchState F)
      → tier_id_of tier ≡ s.last_tier_id
      → show_unlocked tier s ≡ s
  unfolding show_unlocked
  show_unlocked-same tier s e = rw (e, changed-same s.last_tier_id)

  -- Running the effect again on the same summary shows nothing more and changes nothing.
  pub effect_idempotent :
      (c : Option (CartSummary F)) (s : WatchState F) → effect c (effect c s) ≡ effect c s
  effect_idempotent none s = unfold effect in refl
  effect_idempotent (some c) s =
      unfold effect in
      let t = effect (some c) s in
      rw (show_unlocked-same c.tier t refl, show_near-same c.next_tier t)

  -- Any change of tier between two summaries is announced as an unlocked tier, also one to a tier
  -- with a lower minimum.
  pub effect-unlocked :
      (c : CartSummary F) (t : SummaryTier F) (last : ℕ) (s : WatchState F)
      → c.tier ≡ some t
      → t.id ≢ 0
      → t.id ≢ last
      → s.last_tier_id ≡ some last
      → s.helper ≡ true
      → is_near c.next_tier ≡ false
      → (effect (some c) s).shown ≡ s.shown ++ unlocked_note (some t) ∷ []
  unfolding effect show_unlocked show
  effect-unlocked c t last s e nonzero differs before helper far =
      rw (show_near-far c.next_tier c.total_quantity _ far, e) (ground arith)
