-- ===== src/PriceQueue/Tests.antt =====
-- A run of front/src/components/PriceNotification.tsx: a notification is shown and expires.
use go_moda_mayor.Prelude.{ℕ, ◌≡◌, refl, none, some, [], ◌∷◌}
use go_moda_mayor.PriceQueue.{
  Notification, Queue, near_tier, publish, show_price_notification, expire,
}

abbrev greeting : Notification ℕ
greeting = record {
  type = near_tier;
  message = "hola";
  savings = none;
  tier_name = none;
  items_needed = some 2;
}

abbrev quiet : Queue ℕ
quiet = record { queue = []; views = [] ∷ [] }

comes_and_goes : expire "a" (show_price_notification "a" greeting quiet) ≡ quiet
unfolding expire show_price_notification publish
comes_and_goes = refl
