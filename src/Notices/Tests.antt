-- ===== src/Notices/Tests.antt =====
-- A run of front/src/hooks/useNotifications.ts.
use go_moda_mayor.Prelude.{ℕ, ◌≡◌, refl, false, none, some, [], ◌∷◌}
use go_moda_mayor.Notices.{AppNotification, Notices, get_id, send_read, mark_as_read, unread_count}

abbrev a_notice : ℕ → AppNotification
a_notice id = record {
  upper_id = some id;
  lower_id = none;
  message = "m";
  read = none;
  upper_created_at = none;
  lower_created_at = none;
}

abbrev inbox : Notices
inbox = record {
  notifications = a_notice 4 ∷ a_notice 5 ∷ [];
  loading = false;
  token = some "t";
  sent = [];
}

one_left : unread_count (mark_as_read (some 4) inbox) ≡ 1
unfolding unread_count mark_as_read send_read get_id
one_left = refl
