-- ===== src/Sales/Counts.antt =====
-- The statistics of front/src/hooks/useSales.ts, and the filter of the page that shows the sales.
use text.Mathlib.TextEquality.{eq_iff}
use go_moda_mayor.Prelude.{
  if◌then◌else◌, ◌∙◌, sym, keep-keep, ◌+◌, ◌≡◌, refl, Bool, true, false, not, ◌&&◌, List, [], ◌∷◌,
  String, arith, str_eq, keep, length, inl, inr, Bool-cases, some, none, keep-ext,
}
use go_moda_mayor.Orders.{Order}
use go_moda_mayor.Summary.{same_id}
use go_moda_mayor.Sales.{
  completed_text, pending_text, status_of, is_completed, is_pending, stats, Viewer, is_foreign,
  shows, filtered,
}

-- The cases of a test made of `||`.
pending_of_eq : (t w : String) → str_eq t w ≡ true → pending_text w ≡ false → pending_text t ≡ false
pending_of_eq t w e h = rw ((eq_iff t w).0 e) h

apart_text : (t : String) → completed_text t ≡ true → pending_text t ≡ false
unfolding completed_text
apart_text t h = elim (Bool-cases (str_eq t "pagado")) [
  | inl e ↦ pending_of_eq t "pagado" e (unfold pending_text in refl)
  | inr e1 ↦ elim (Bool-cases (str_eq t "completado")) [
    | inl e ↦ pending_of_eq t "completado" e (unfold pending_text in refl)
    | inr e2 ↦ elim (Bool-cases (str_eq t "completada")) [
      | inl e ↦ pending_of_eq t "completada" e (unfold pending_text in refl)
      | inr e3 ↦ pending_of_eq t "finalizada" (rw (e1, e2, e3) at h) (unfold pending_text in refl)
    ]
  ]
]

-- The order is assigned to the viewer.
abbrev pub is_of : {F P : Type 0} → Viewer → Order F P → Bool
is_of v o = same_id o.assigned_to (some v.user_id)

module _ (to_lower_case : String → String) {F P : Type 0} where
  -- Neither pending nor completed.
  abbrev pub is_other : Order F P → Bool
  is_other o = not (is_completed to_lower_case o) && not (is_pending to_lower_case o)

  apart : (o : Order F P) → is_completed to_lower_case o ≡ true → is_pending to_lower_case o ≡ false
  unfolding is_completed is_pending
  apart o h = apart_text (status_of to_lower_case o) h

  count_three :
      (os : List (Order F P))
      → length (keep (is_pending to_lower_case) os)
          + length (keep (is_completed to_lower_case) os)
          + length (keep is_other os)
        ≡ length os
  count_three [] = omega arith
  count_three (o ∷ os) = ground (arith, apart o, count_three os)

  -- The numbers of pending and of completed orders and of those that are neither add up to the
  -- number of orders: no order is counted as both.
  pub stats_partition :
      (add : F → F → F) (zero : F) (orders : List (Order F P))
      → let s = stats to_lower_case add zero orders in
        s.pending + s.completed + length (keep is_other orders) ≡ s.total_orders
  unfolding stats
  stats_partition add zero orders = count_three orders

  -- Who is asked about, besides what is asked for.
  shows-split :
      (v : Viewer) (q status : String) (o : Order F P)
      → shows to_lower_case (some v) q status o
        ≡ (shows to_lower_case none q status o && not (is_foreign (some v) o))
  unfolding shows
  shows-split v q status o = elim (Bool-cases (is_foreign (some v) o)) [
    | inl e ↦ rw e (ground arith)
    | inr e ↦ rw e (ground arith)
  ]

  keep-true :
      (p : Order F P → Bool) (orders : List (Order F P))
      → ((o : Order F P) → p o ≡ true)
      → keep p orders ≡ orders
  keep-true p [] h = refl
  keep-true p (o ∷ os) h = rw (h o, keep-true p os h) refl

  -- A viewer with the role `vendedor` is shown, of what is shown to nobody in particular, just the
  -- orders that are assigned to the viewer, in order; a viewer with another role is shown all of it.
  -- With no search and no status, that is all orders.
  pub filtered-own :
      (v : Viewer) (q status : String) (orders : List (Order F P))
      → let asked = filtered to_lower_case none q status orders in
        (filtered to_lower_case (some v) q status orders
          ≡ (if str_eq v.role "vendedor" then keep (is_of v) asked else asked))
        × (filtered to_lower_case none "" "" orders ≡ orders)
  unfolding filtered
  filtered-own v q status orders = (
    elim (Bool-cases (str_eq v.role "vendedor")) [
      | inl e ↦ rw e (
          keep-ext (shows to_lower_case (some v) q status)
            (λ o. shows to_lower_case none q status o && is_of v o) orders
            (λ o. rw (shows-split v q status o, e) (ground arith))
          ∙ sym (keep-keep (is_of v) (shows to_lower_case none q status) orders))
      | inr e ↦ rw e (
          keep-ext (shows to_lower_case (some v) q status) (shows to_lower_case none q status)
            orders (λ o. rw (shows-split v q status o, e) (ground arith)))
    ],
    keep-true (shows to_lower_case none "" "") orders (λ o. unfold shows in refl),
  )
