-- ===== src/PriceQueue.antt =====
-- front/src/components/PriceNotification.tsx: the queue of price notifications that
-- `window.showPriceNotification` fills, and the components that show it.
pub mod Expiry
mod Tests
use go_moda_mayor.Prelude.{
  ℕ, zero, suc, not, Option, List, [], ◌∷◌, ◌++◌, map, String, str_eq, keep,
}

pub data NotificationType : Type 0 where
  tier_unlocked near_tier tier_lost : NotificationType

-- What `showPriceNotification` is given.
pub record Notification (F : Type 0) : Type 0 where
  pub type : NotificationType
  pub message : String
  pub savings : Option F
  pub tier_name : Option String
  pub items_needed : Option ℕ

-- A member of `notificationQueue`, with the `id` that it was given.
pub record Queued (F : Type 0) : Type 0 where
  pub id : String
  pub notification : Notification F

-- The queue, and what each mounted component shows: their listeners are registered.
pub record Queue (F : Type 0) : Type 0 where
  pub queue : List (Queued F)
  pub views : List (List (Queued F))

module _ {F : Type 0} where
  -- `listeners.forEach(...)`
  publish : List (Queued F) → Queue F → Queue F
  publish items q = record { queue = items; views = map (λ _. items) q.views }

  -- `id` is the text made of the time and a random number.
  pub show_price_notification : String → Notification F → Queue F → Queue F
  unfolding publish
  show_price_notification id n q = publish (q.queue ++ record { id = id; notification = n } ∷ []) q

  abbrev pub without : String → List (Queued F) → List (Queued F)
  without id items = keep (λ n. not (str_eq n.id id)) items

  -- The timer of a notification, after five seconds.
  pub expire : String → Queue F → Queue F
  unfolding publish
  expire id q = publish (without id q.queue) q

  -- The other views keep what they show.
  set_view : ℕ → List (Queued F) → List (List (Queued F)) → List (List (Queued F))
  set_view k items [] = []
  set_view zero items (v ∷ vs) = items ∷ vs
  set_view (suc k) items (v ∷ vs) = v ∷ set_view k items vs

  -- The close button of the k-th component: only this component is told.
  pub remove_notification : ℕ → String → Queue F → Queue F
  unfolding set_view
  remove_notification k id q = record {
    queue = without id q.queue;
    views = set_view k (without id q.queue) q.views;
  }

  -- A component mounts, and shows nothing until it is told.
  pub mount : Queue F → Queue F
  mount q = record q { views = q.views ++ [] ∷ [] }
