-- ===== src/Notices.antt =====
-- front/src/hooks/useNotifications.ts: the notifications of the session's user.
pub mod Read
mod Tests
use go_moda_mayor.Prelude.{
  ℕ, Bool, true, false, not, Option, none, some, List, [], ◌∷◌, ◌++◌, map, String, ◌==◌,
  if◌then◌else◌, truthy, get_or, keep, length,
}
use go_moda_mayor.Net.{Reply, failed, refused, garbled, accepted}

-- The two spellings of the identifier and of the date.
pub record AppNotification : Type 0 where
  pub upper_id : Option ℕ
  pub lower_id : Option ℕ
  pub message : String
  pub read : Option Bool
  pub upper_created_at : Option String
  pub lower_created_at : Option String

-- An instance of the hook, the token of the storage, and the identifiers that were sent to the
-- server as read, in the order of sending.
pub record Notices : Type 0 where
  pub notifications : List AppNotification
  pub loading : Bool
  pub token : Option String
  pub sent : List ℕ

-- `n.ID || n.id`
abbrev or_number : Option ℕ → Option ℕ → Option ℕ
or_number none d = d
or_number (some a) d = if a == 0 then d else some a

pub get_id : AppNotification → Option ℕ
get_id n = or_number n.upper_id n.lower_id

-- The JSON of an answer is a list, or no array.
receive : Reply (Option (List AppNotification)) → Notices → Notices
receive (failed m) s = record s { loading = false }
receive (refused status error) s = record s { notifications = []; loading = false }
receive (garbled m) s = record s { loading = false }
receive (accepted ns) s = record s { notifications = get_or ns []; loading = false }

pub fetch_notifications : Reply (Option (List AppNotification)) → Notices → Notices
unfolding receive
fetch_notifications reply s =
    if truthy s.token
    then receive reply (record s { loading = true })
    else record s { notifications = [] }

abbrev pub has_id : ℕ → Option ℕ → Bool
has_id id none = false
has_id id (some a) = a == id

mark : ℕ → AppNotification → AppNotification
mark id n = if has_id id (get_id n) then record n { read = some true } else n

-- The request's outcome is ignored: the mark is set before it is sent, and stays.
send_read : ℕ → Notices → Notices
unfolding mark
send_read id s =
    let marked : Notices = record s { notifications = map (mark id) s.notifications } in
    if truthy s.token then record marked { sent = s.sent ++ id ∷ [] } else marked

pub mark_as_read : Option ℕ → Notices → Notices
unfolding send_read
mark_as_read none s = s
mark_as_read (some id) s = if id == 0 then s else send_read id s

-- `!n.read`
abbrev pub is_unread : AppNotification → Bool
is_unread n = not (get_or n.read false)

pub unread_count : Notices → ℕ
unread_count s = length (keep is_unread s.notifications)
