-- ===== src/Notices/Read.antt =====
-- What `markAsRead` of front/src/hooks/useNotifications.ts does to the number of unread ones.
use go_moda_mayor.Prelude.{
  ℕ, ◌+◌, ◌≡◌, refl, Bool, false, ◌&&◌, some, List, [], ◌∷◌, ◌++◌, map, arith, ◌==◌, keep, length,
  truthy, inl, inr, Bool-cases, if◌then◌else◌,
}
use go_moda_mayor.Notices.{
  AppNotification, Notices, get_id, has_id, mark, send_read, mark_as_read, is_unread, unread_count,
}

-- Unread, and with this identifier.
abbrev pub is_target : ℕ → AppNotification → Bool
is_target id n = has_id id (get_id n) && is_unread n

unread-map-mark :
    (id : ℕ) (ns : List AppNotification)
    → length (keep is_unread (map (mark id) ns)) + length (keep (is_target id) ns)
      ≡ length (keep is_unread ns)
unfolding mark
unread-map-mark id [] = omega arith
unread-map-mark id (n ∷ ns) = ground (arith, unread-map-mark id ns)

get_id-mark : (id : ℕ) (n : AppNotification) → get_id (mark id n) ≡ get_id n
unfolding mark get_id
get_id-mark id n = elim (Bool-cases (has_id id (get_id n))) [ inl e ↦ rw e | inr e ↦ rw e ]

ids-map-mark : (id : ℕ) (ns : List AppNotification) → map get_id (map (mark id) ns) ≡ map get_id ns
ids-map-mark id [] = refl
ids-map-mark id (n ∷ ns) = rw (get_id-mark id n, ids-map-mark id ns)

-- Marking an identifier that is not 0 as read lowers the count of unread ones by just the unread ones
-- that have it, and keeps the identifiers and their order; the server is told if and only if there is
-- a token.
pub mark_as_read_lem :
    (id : ℕ) (s : Notices)
    → (id == 0) ≡ false
    → let t = mark_as_read (some id) s in
      (unread_count t + length (keep (is_target id) s.notifications) ≡ unread_count s)
      × (map get_id t.notifications ≡ map get_id s.notifications)
      × (t.sent ≡ (if truthy s.token then s.sent ++ id ∷ [] else s.sent))
unfolding mark_as_read send_read unread_count
mark_as_read_lem id s h = elim (Bool-cases (truthy s.token)) [
  | inl e ↦ rw (h, e) (unread-map-mark id s.notifications, ids-map-mark id s.notifications, refl)
  | inr e ↦ rw (h, e) (unread-map-mark id s.notifications, ids-map-mark id s.notifications, refl)
]
