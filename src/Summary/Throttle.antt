-- ===== src/Summary/Throttle.antt =====
-- What a load of front/src/hooks/useCartSummary.ts may show, and what it leaves of the state.
use go_moda_mayor.Prelude.{
  ℕ, ◌-◌, ◌≡◌, refl, ◌<◌, true, false, ◌&&◌, Option, none, some, [], ◌∷◌, ◌++◌, arith, ◌==◌, truthy,
  inl, inr, ◌⊎◌, Bool-cases,
}
use go_moda_mayor.Net.{Reply, failed, refused, garbled, accepted}
use go_moda_mayor.Pricing.{Number}
use go_moda_mayor.Summary.{
  CartSummary, LastNotification, same_type, same_id, should_show, Alert, candidate, SummaryState,
  notify, compare_with, load, fetch_summary,
}
use go_moda_mayor.Summary.Direction.{IsDue, candidate-Reason}

module _ {F : Type 0} where
  -- Not a repetition: another type or tier than the last notification, or more than three seconds
  -- later.
  abbrev pub Spaced : Option LastNotification → Alert F → ℕ → Type 0
  Spaced none a now = Unit
  Spaced (some l) a now =
      (same_type l.type a.type ≡ false)
      ⊎ ((same_id l.tier_id a.tier_id ≡ false) ⊎ (3000 < now - l.timestamp))

  should_show-Spaced :
      (last : Option LastNotification) (a : Alert F) (now : ℕ)
      → should_show last now a.type a.tier_id ≡ true
      → Spaced last a now
  unfolding should_show
  should_show-Spaced none a now h = tt
  should_show-Spaced (some l) a now h = elim (Bool-cases (same_type l.type a.type)) [
    | inr e ↦ inl e
    | inl e ↦ elim (Bool-cases (same_id l.tier_id a.tier_id)) [
      | inr f ↦ inr (inl f)
      | inl f ↦ inr (inr (ground (arith, rw (e, f) at h)))
    ]
  ]

  abbrev pub IsQuiet : SummaryState F → SummaryState F → Type 0
  IsQuiet s t = (t.shown ≡ s.shown) × (t.last ≡ s.last)

  pub record IsShown (now : ℕ) (s : SummaryState F) (a : Alert F) (t : SummaryState F)
      : Type 0 where
    pub spaced : Spaced s.last a now
    pub shown : t.shown ≡ s.shown ++ a.shown ∷ []
    pub last : t.last ≡ some (record { type = a.type; tier_id = a.tier_id; timestamp = now })

  notify-cases :
      (now : ℕ) (o : Option (Alert F)) (s : SummaryState F)
      → IsQuiet s (notify now o s)
        ⊎ ((a : Alert F) × (o ≡ some a) × IsShown now s a (notify now o s))
  unfolding notify
  notify-cases now none s = inl (refl, refl)
  notify-cases now (some a) s = elim (Bool-cases (should_show s.last now a.type a.tier_id)) [
    | inl h ↦ rw h (
        inr (
          a,
          refl,
          record { spaced = should_show-Spaced s.last a now h; shown = refl; last = refl },
        ))
    | inr h ↦ rw h (inl (refl, refl))
  ]

module _ {F : Type 0} ⦃n : Number F⦄ where
  -- How a load can come to show a notification.
  pub record IsAlerted (now : ℕ) (reply : Reply (CartSummary F)) (s t : SummaryState F)
      : Type 0 where
    pub alert : Alert F
    pub prev : CartSummary F
    pub current : CartSummary F
    pub answered : reply ≡ accepted current
    pub compared : s.previous ≡ some prev
    pub enabled : s.enabled ≡ true
    pub due : IsDue prev current alert
    pub is_shown : IsShown now s alert t

  compare_with-cases :
      (now : ℕ) (o : Option (CartSummary F)) (c : CartSummary F) (s : SummaryState F)
      → let t = compare_with now o c s in
        IsQuiet s t
        ⊎ ((a : Alert F) × (p : CartSummary F) × (o ≡ some p)
            × (s.enabled ≡ true)
            × IsDue p c a
            × IsShown now s a t)
  unfolding compare_with
  compare_with-cases now none c s = inl (refl, refl)
  compare_with-cases now (some p) c s = elim (Bool-cases (s.enabled && s.helper)) [
    | inr off ↦ rw off (inl (refl, refl))
    | inl on ↦ elim (notify-cases now (candidate p c) s) [
      | inl quiet ↦ rw on (inl quiet)
      | inr (a, e, shown) ↦ rw on (inr (a, p, refl, ground arith, candidate-Reason p c a e, shown))
    ]
  ]

  load-cases :
      (now : ℕ) (reply : Reply (CartSummary F)) (s : SummaryState F)
      → IsQuiet s (load now reply s) ⊎ IsAlerted now reply s (load now reply s)
  unfolding load
  load-cases now (failed m) s = inl (refl, refl)
  load-cases now (refused status error) s = elim (Bool-cases (status == 401)) [
    | inl e ↦ rw e (inl (refl, refl))
    | inr e ↦ rw e (inl (refl, refl))
  ]
  load-cases now (garbled m) s = inl (refl, refl)
  load-cases now (accepted c) s = elim (compare_with-cases now s.previous c s) [
    | inl quiet ↦ inl quiet
    | inr (a, p, found, on, due, shown) ↦ inr (record {
      alert = a;
      prev = p;
      current = c;
      answered = refl;
      compared = found;
      enabled = on;
      due = due;
      is_shown = record { spaced = shown.spaced; shown = shown.shown; last = shown.last };
    })
  ]

  -- A load shows nothing and keeps the reference to the last notification, or else it shows one
  -- notification more: then the hook was enabled, a summary arrived and an earlier one was there, the
  -- two differ in the way that the alert reports, what is shown is the notification of that kind, about
  -- the present tier, or about the next one if it is near, with the number of items missing; the alert is no repetition of the last one within
  -- three seconds, and it becomes the last one.
  pub fetch_summary-alerts :
      (now : ℕ) (reply : Reply (CartSummary F)) (s : SummaryState F)
      → IsQuiet s (fetch_summary now reply s) ⊎ IsAlerted now reply s (fetch_summary now reply s)
  unfolding fetch_summary
  fetch_summary-alerts now reply s = elim (Bool-cases (truthy s.token)) [
    | inr e ↦ rw e (inl (refl, refl))
    | inl e ↦
        let b : SummaryState F = record s { loading = true; error = none } in
        elim (load-cases now reply b) [
          | inl quiet ↦ rw e (inl quiet)
          | inr k ↦ rw e (
              inr (record {
                alert = k.alert;
                prev = k.prev;
                current = k.current;
                answered = k.answered;
                compared = k.compared;
                enabled = k.enabled;
                due = k.due;
                is_shown = record {
                  spaced = k.is_shown.spaced;
                  shown = k.is_shown.shown;
                  last = k.is_shown.last;
                };
              }))
        ]
  ]
