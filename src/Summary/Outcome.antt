-- ===== src/Summary/Outcome.antt =====
-- What each reply does to the summary and the error of front/src/hooks/useCartSummary.ts.
use go_moda_mayor.Prelude.{
  ℕ, ◌≡◌, refl, true, false, ◌&&◌, Option, none, some, arith, ◌==◌, ==_iff, ◌≢◌, ◌∙◌, truthy, inl,
  inr, ◌⊎◌, Bool-cases,
}
use go_moda_mayor.Net.{Reply, failed, refused, garbled, accepted}
use go_moda_mayor.Pricing.{Number}
use go_moda_mayor.Summary.{
  CartSummary, should_show, Alert, candidate, SummaryState, notify, compare_with, load,
  fetch_summary,
}

module _ {F : Type 0} ⦃n : Number F⦄ where
  -- What a load with a token does to the summary and the error, for each reply.
  abbrev pub Outcome : Reply (CartSummary F) → SummaryState F → SummaryState F → Type 0
  Outcome (failed m) s t = (t.summary ≡ s.summary) × (t.previous ≡ s.previous) × (t.error ≡ some m)
  Outcome (refused status error) s t =
      ((status ≡ 401) × (t.summary ≡ none) × (t.previous ≡ s.previous) × (t.error ≡ none))
      ⊎ ((status ≢ 401)
          × (t.summary ≡ s.summary)
          × (t.previous ≡ s.previous)
          × (t.error ≡ some "Error al cargar el resumen del carrito"))
  Outcome (garbled m) s t = (t.summary ≡ s.summary) × (t.previous ≡ s.previous) × (t.error ≡ some m)
  Outcome (accepted c) s t = (t.summary ≡ some c) × (t.previous ≡ some c) × (t.error ≡ none)

  notify-error :
      (now : ℕ) (o : Option (Alert F)) (s : SummaryState F) → (notify now o s).error ≡ s.error
  unfolding notify
  notify-error now none s = refl
  notify-error now (some a) s = elim (Bool-cases (should_show s.last now a.type a.tier_id)) [
    | inl h ↦ rw h
    | inr h ↦ rw h
  ]

  compare_with-error :
      (now : ℕ) (o : Option (CartSummary F)) (c : CartSummary F) (s : SummaryState F)
      → (compare_with now o c s).error ≡ s.error
  unfolding compare_with
  compare_with-error now none c s = refl
  compare_with-error now (some p) c s = elim (Bool-cases (s.enabled && s.helper)) [
    | inl h ↦ rw h (notify-error now (candidate p c) s)
    | inr h ↦ rw h
  ]

  load-Outcome :
      (now : ℕ) (reply : Reply (CartSummary F)) (s : SummaryState F)
      → s.error ≡ none
      → Outcome reply s (load now reply s) × ((load now reply s).loading ≡ false)
  unfolding load
  load-Outcome now (failed m) s clear = ((refl, refl, refl), refl)
  load-Outcome now (refused status error) s clear = elim (Bool-cases (status == 401)) [
    | inl e ↦ rw e (inl ((==_iff status 401).0 e, refl, refl, clear), refl)
    | inr e ↦ rw e (inr (ground arith, refl, refl, refl), refl)
  ]
  load-Outcome now (garbled m) s clear = ((refl, refl, refl), refl)
  load-Outcome now (accepted c) s clear =
      ((refl, refl, compare_with-error now s.previous c s ∙ clear), refl)

  -- With a token, an answer is shown and becomes the summary to compare with; a 401 clears what is
  -- shown; any other failure keeps it and shows an error. No failure touches the summary to compare
  -- with, and nothing is loading afterwards.
  pub fetch_summary-Outcome :
      (now : ℕ) (reply : Reply (CartSummary F)) (s : SummaryState F)
      → truthy s.token ≡ true
      → let t = fetch_summary now reply s in Outcome reply s t × (t.loading ≡ false)
  unfolding fetch_summary
  fetch_summary-Outcome now reply s h =
      let b : SummaryState F = record s { loading = true; error = none } in
      rw h (again reply (load now reply b) (load-Outcome now reply b refl))
    where
      again :
          (reply : Reply (CartSummary F)) (t : SummaryState F)
          → Outcome reply (record s { loading = true; error = none }) t × (t.loading ≡ false)
          → Outcome reply s t × (t.loading ≡ false)
      again (failed m) t o = o
      again (refused status error) t o = o
      again (garbled m) t o = o
      again (accepted c) t o = o
