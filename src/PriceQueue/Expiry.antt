-- ===== src/PriceQueue/Expiry.antt =====
-- What becomes of a notification of front/src/components/PriceNotification.tsx.
use text.Mathlib.TextEquality.{eq_iff}
use text.Mathlib.TextPositions.{eq_refl}
use mathlib.Core.Path.{ap}
use mathlib.Core.List.{append-nil}
use go_moda_mayor.Prelude.{
  ◌≡◌, refl, ◌≢◌, false, List, [], ◌∷◌, ◌++◌, map, String, arith, str_eq, All, inl, inr, Bool-cases,
}
use go_moda_mayor.PriceQueue.{
  Notification, Queued, Queue, publish, show_price_notification, without, expire,
}

module _ {F : Type 0} where
  -- No notification of the list has this `id`.
  abbrev pub Lacks : String → List (Queued F) → Type 0
  Lacks id items = All (λ n. n.id ≢ id) items

  without-Lacks : (id : String) (items : List (Queued F)) → Lacks id (without id items)
  without-Lacks id [] = tt
  without-Lacks id (n ∷ ns) = elim (Bool-cases (str_eq n.id id)) [
    | inl e ↦ rw e (without-Lacks id ns)
    | inr e ↦ rw e (ground (arith, eq_iff n.id id), without-Lacks id ns)
  ]

  without_id : (id : String) (items : List (Queued F)) → Lacks id items → without id items ≡ items
  without_id id [] h = refl
  without_id id (n ∷ ns) (h, hs) = elim (Bool-cases (str_eq n.id id)) [
    | inl e ↦ absurd (h ((eq_iff n.id id).0 e))
    | inr e ↦ rw (e, without_id id ns hs)
  ]

  All-map-const :
      (items : List (Queued F)) (vs : List (List (Queued F)))
      → All (λ v. v ≡ items) (map (λ _. items) vs)
  All-map-const items [] = tt
  All-map-const items (v ∷ vs) = (refl, All-map-const items vs)

  -- When its timer ends, a notification is in the queue no more, and every mounted component shows
  -- just the queue, in which the others are left as they were.
  pub expire_lem :
      (id : String) (q : Queue F)
      → Lacks id (expire id q).queue
        × All (λ v. v ≡ (expire id q).queue) (expire id q).views
        × ((expire id q).queue ≡ without id q.queue)
  unfolding expire publish
  expire_lem id q = (without-Lacks id q.queue, All-map-const (without id q.queue) q.views, refl)

  without-append :
      (id : String) (xs ys : List (Queued F))
      → without id (xs ++ ys) ≡ without id xs ++ without id ys
  without-append id [] ys = refl
  without-append id (x ∷ xs) ys = elim (Bool-cases (str_eq x.id id)) [
    | inl e ↦ rw (e, without-append id xs ys)
    | inr e ↦ rw (e, without-append id xs ys)
  ]

  -- If its `id` is new, a notification that is shown and whose timer ends leaves the queue as it
  -- was, whatever other notification with another `id` is shown in between: that one stays.
  pub expire-show_price_notification :
      (id other : String) (n m : Notification F) (q : Queue F)
      → Lacks id q.queue
      → other ≢ id
      → (expire id (show_price_notification other m (show_price_notification id n q))).queue
        ≡ (show_price_notification other m q).queue
  unfolding expire show_price_notification publish
  expire-show_price_notification id other n m q fresh apart =
      let kept : str_eq other id ≡ false = ground (arith, eq_iff other id) in
      let shown : Queued F = record { id = id; notification = n } in
      rw
        (
          without-append id (q.queue ++ shown ∷ []) (record { id = other; notification = m } ∷ []),
          without-append id q.queue (shown ∷ []),
          without_id id q.queue fresh,
          eq_refl id,
          kept,
        )
        (ap (λ (items : List (Queued F)). items ++ record { id = other; notification = m } ∷ [])
          (append-nil q.queue))
