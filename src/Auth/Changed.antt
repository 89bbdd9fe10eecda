-- ===== src/Auth/Changed.antt =====
-- What the listener of `auth:changed` in front/src/contexts/AuthContext.tsx leaves.
use go_moda_mayor.Prelude.{
  ◌≡◌, refl, Bool, true, false, not, Option, none, arith, ◌==◌, if_elim, truthy,
}
use go_moda_mayor.Net.{Reply, failed, refused, garbled, accepted}
use go_moda_mayor.Auth.{
  User, StoredUser, missing, unreadable, holds, AuthState, auth_changed, step, load_profile,
  after_me, on_auth_changed, from_storage,
}

-- The answer is no 401.
abbrev pub not_expired : Reply (Option User) → Bool
not_expired (refused status error) = not (status == 401)
not_expired (failed m) = true
not_expired (garbled m) = true
not_expired (accepted u) = true

-- The provider stays mounted, and the token stays unless an answer is a 401.
abbrev Keeps : Reply (Option User) → AuthState → AuthState → Type 0
Keeps r a b = (b.mounted ≡ a.mounted) × (not_expired r ≡ true → b.token ≡ a.token)

after_me-Keeps : (r : Reply (Option User)) (a : AuthState) → Keeps r a (after_me r a)
unfolding after_me
after_me-Keeps (failed m) a = (refl, λ h. refl)
after_me-Keeps (refused status error) a =
    if_elim (Keeps (refused status error) a) (status == 401)
      (record a { token = none; stored_user = missing; user = none; loading = false })
      (record a { user = none; loading = false }) (λ e. (refl, λ h. ground (arith, e, h)))
      (λ e. (refl, λ h. refl))
after_me-Keeps (garbled m) a = (refl, λ h. refl)
after_me-Keeps (accepted u) a = (refl, λ h. refl)

load_profile-Keeps : (r : Reply (Option User)) (a : AuthState) → Keeps r a (load_profile r a)
unfolding load_profile
load_profile-Keeps r a =
    if_elim (Keeps r a) (truthy a.token) (after_me r (record a { loading = true }))
      (record a { user = none; loading = false })
      (λ e. after_me-Keeps r (record a { loading = true })) (λ e. (refl, λ h. refl))

from_storage-Keeps :
    (u : StoredUser) (r : Reply (Option User)) (a : AuthState) → Keeps r a (from_storage u r a)
unfolding from_storage
from_storage-Keeps missing r a = load_profile-Keeps r a
from_storage-Keeps unreadable r a = load_profile-Keeps r a
from_storage-Keeps (holds u) r a = (refl, λ h. refl)

pub auth_changed-Keeps :
    (r : Reply (Option User)) (a : AuthState) → Keeps r a (step (auth_changed r) a)
unfolding step on_auth_changed
auth_changed-Keeps r a =
    if_elim (Keeps r a) a.mounted (from_storage a.stored_user r a) a
      (λ e. from_storage-Keeps a.stored_user r a) (λ e. (refl, λ h. refl))

-- A mounted provider shows the stored user.
pub auth_changed-holds :
    (r : Reply (Option User)) (a : AuthState) (u : Option User)
    → a.mounted ≡ true
    → a.stored_user ≡ holds u
    → step (auth_changed r) a ≡ record a { user = u; loading = false }
unfolding step on_auth_changed from_storage
auth_changed-holds r a u m e = rw (m, e) refl
