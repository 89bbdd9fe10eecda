-- ===== src/Auth.antt =====
-- front/src/contexts/AuthContext.tsx: the user of the session, kept in step with the storage.
pub mod Session
pub mod Guard
pub mod Changed
mod Tests
use go_moda_mayor.Prelude.{
  ℕ, Bool, true, false, Option, none, some, List, [], ◌∷◌, String, ◌==◌, if◌then◌else◌, truthy,
}
use go_moda_mayor.Net.{Reply, failed, refused, garbled, accepted}

pub record User : Type 0 where
  pub id : ℕ
  pub name : String
  pub email : String
  pub role : String

-- The item `user` of the storage: missing or empty, not JSON, or JSON of a user or of null.
pub data StoredUser : Type 0 where
  missing unreadable : StoredUser
  holds : Option User → StoredUser

-- The provider (`mounted`, `user`, `loading`) and the items `token` and `user` of the storage.
pub record AuthState : Type 0 where
  pub mounted : Bool
  pub user : Option User
  pub loading : Bool
  pub token : Option String
  pub stored_user : StoredUser

-- The answer to `GET /me`, after the token was found.
after_me : Reply (Option User) → AuthState → AuthState
after_me (failed m) s = record s { user = none; loading = false }
after_me (refused status error) s =
    if status == 401
    then record s { token = none; stored_user = missing; user = none; loading = false }
    else record s { user = none; loading = false }
after_me (garbled m) s = record s { user = none; loading = false }
after_me (accepted u) s = record s { user = u; stored_user = holds u; loading = false }

pub load_profile : Reply (Option User) → AuthState → AuthState
unfolding after_me
load_profile reply s =
    if truthy s.token
    then after_me reply (record s { loading = true })
    else record s { user = none; loading = false }

-- The listener of `auth:logout`.
on_logout : AuthState → AuthState
on_logout s = if s.mounted then record s { user = none; loading = false } else s

-- `logout`, whose event reaches the provider's own listener.
pub logout : AuthState → AuthState
unfolding on_logout
logout s = on_logout (record s { token = none; stored_user = missing; user = none })

pub refresh_user : Reply (Option User) → AuthState → AuthState
refresh_user reply s = load_profile reply s

-- The listener of `auth:changed` prefers the stored user to a request.
from_storage : StoredUser → Reply (Option User) → AuthState → AuthState
from_storage missing reply s = load_profile reply s
from_storage unreadable reply s = load_profile reply s
from_storage (holds u) reply s = record s { user = u; loading = false }

on_auth_changed : Reply (Option User) → AuthState → AuthState
unfolding from_storage
on_auth_changed reply s = if s.mounted then from_storage s.stored_user reply s else s

pub data StorageKey : Type 0 where
  token_key user_key other_key : StorageKey

abbrev is_auth_key : StorageKey → Bool
is_auth_key token_key = true
is_auth_key user_key = true
is_auth_key other_key = false

-- The listener of `storage`.
on_storage : StorageKey → Reply (Option User) → AuthState → AuthState
on_storage key reply s =
    if s.mounted then if is_auth_key key then load_profile reply s else s else s

-- What happens to the provider; each event carries the reply that its request gets, if it sends one
-- and no other event comes between. The answer to a request that is overtaken is an event of its own.
pub data AuthEvent : Type 0 where
  starts : Reply (Option User) → AuthEvent
  storage_event : StorageKey → Reply (Option User) → AuthEvent
  auth_changed : Reply (Option User) → AuthEvent
  auth_logout : AuthEvent
  logs_out : AuthEvent
  refreshes : Reply (Option User) → AuthEvent
  unmounts : AuthEvent
  -- The answer to a request that was sent before, and was still open at the events since.
  comes_late : Reply (Option User) → AuthEvent

pub step : AuthEvent → AuthState → AuthState
unfolding on_storage on_auth_changed on_logout after_me
step (starts reply) s = load_profile reply (record s { mounted = true })
step (storage_event key reply) s = on_storage key reply s
step (auth_changed reply) s = on_auth_changed reply s
step auth_logout s = on_logout s
step logs_out s = logout s
step (refreshes reply) s = refresh_user reply s
step unmounts s = record s { mounted = false }
step (comes_late reply) s = after_me reply s

pub run : List AuthEvent → AuthState → AuthState
run [] s = s
run (e ∷ es) s = run es (step e s)

-- Another page or tab writes the storage: a login, or a logout elsewhere.
pub write_storage : Option String → StoredUser → AuthState → AuthState
write_storage token stored s = record s { token = token; stored_user = stored }
