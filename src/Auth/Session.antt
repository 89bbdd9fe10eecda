-- ===== src/Auth/Session.antt =====
-- When the provider of front/src/contexts/AuthContext.tsx shows a user.
use go_moda_mayor.Prelude.{
  ◌≡◌, refl, Bool, true, false, Option, none, List, [], ◌∷◌, arith, truthy, inl, inr, ◌⊎◌,
  Bool-cases, sym, if◌then◌else◌, if_elim, ◌≢◌, some, ◌==◌, All,
}
use mathlib.Core.Path.{subst}
use go_moda_mayor.Net.{Reply, failed, refused, garbled, accepted}
use go_moda_mayor.Auth.{
  User, StoredUser, missing, holds, AuthState, after_me, load_profile, logout, refresh_user,
  from_storage, on_auth_changed, AuthEvent, starts, storage_event, auth_changed, auth_logout,
  logs_out, refreshes, unmounts, comes_late, step, run,
}

pub record IsLoggedOut (s : AuthState) : Type 0 where
  pub user : s.user ≡ none
  pub token : s.token ≡ none
  pub stored_user : s.stored_user ≡ missing

-- After a logout there is no user, no token and no stored user, in whatever state it happens.
logout-IsLoggedOut : (s : AuthState) → IsLoggedOut (logout s)
unfolding logout
logout-IsLoggedOut s = ground arith

load_profile-IsLoggedOut :
    (reply : Reply (Option User)) (s : AuthState)
    → IsLoggedOut s
    → IsLoggedOut (load_profile reply s)
unfolding load_profile
load_profile-IsLoggedOut reply s k =
    rw k.token (record { user = refl; token = refl; stored_user = k.stored_user })

from_storage-IsLoggedOut :
    (reply : Reply (Option User)) (s : AuthState)
    → IsLoggedOut s
    → IsLoggedOut (from_storage s.stored_user reply s)
from_storage-IsLoggedOut reply s k =
    subst (λ (stored : StoredUser). IsLoggedOut (from_storage stored reply s)) (sym k.stored_user)
      (unfold from_storage in load_profile-IsLoggedOut reply s k)

on_auth_changed-IsLoggedOut :
    (reply : Reply (Option User)) (s : AuthState)
    → IsLoggedOut s
    → IsLoggedOut (on_auth_changed reply s)
unfolding on_auth_changed
on_auth_changed-IsLoggedOut reply s k = elim (Bool-cases s.mounted) [
  | inl m ↦
      subst (λ (b : Bool). IsLoggedOut (if b then from_storage s.stored_user reply s else s))
        (sym m) (from_storage-IsLoggedOut reply s k)
  | inr m ↦
      subst (λ (b : Bool). IsLoggedOut (if b then from_storage s.stored_user reply s else s))
        (sym m) k
]

-- All but an answer to an earlier request that is `ok`.
abbrev pub IsHarmless : AuthEvent → Type 0
IsHarmless (comes_late (accepted u)) = ⊥
IsHarmless e = Unit

after_me-IsLoggedOut :
    (reply : Reply (Option User)) (s : AuthState)
    → IsHarmless (comes_late reply)
    → IsLoggedOut s
    → IsLoggedOut (after_me reply s)
unfolding after_me
after_me-IsLoggedOut (failed m) s h k = record {
  user = refl;
  token = k.token;
  stored_user = k.stored_user;
}
after_me-IsLoggedOut (garbled m) s h k = record {
  user = refl;
  token = k.token;
  stored_user = k.stored_user;
}
after_me-IsLoggedOut (accepted u) s h k = absurd h
after_me-IsLoggedOut (refused status error) s h k =
    if_elim IsLoggedOut (status == 401) _ _
      (λ _. record { user = refl; token = refl; stored_user = refl })
      (λ _. record { user = refl; token = k.token; stored_user = k.stored_user })

step-IsLoggedOut :
    (e : AuthEvent) (s : AuthState) → IsHarmless e → IsLoggedOut s → IsLoggedOut (step e s)
unfolding step refresh_user
step-IsLoggedOut (starts reply) s h k =
    load_profile-IsLoggedOut reply (record s { mounted = true })
      (record { user = k.user; token = k.token; stored_user = k.stored_user })
step-IsLoggedOut (storage_event key reply) s h k =
    ground (arith, load_profile-IsLoggedOut reply s k)
step-IsLoggedOut (auth_changed reply) s h k = on_auth_changed-IsLoggedOut reply s k
step-IsLoggedOut auth_logout s h k = ground arith
step-IsLoggedOut logs_out s h k = logout-IsLoggedOut s
step-IsLoggedOut (refreshes reply) s h k = load_profile-IsLoggedOut reply s k
step-IsLoggedOut unmounts s h k = record {
  user = k.user;
  token = k.token;
  stored_user = k.stored_user;
}
step-IsLoggedOut (comes_late reply) s h k = after_me-IsLoggedOut reply s h k

run-IsLoggedOut :
    (es : List AuthEvent) (s : AuthState)
    → All IsHarmless es
    → IsLoggedOut s
    → IsLoggedOut (run es s)
unfolding run
run-IsLoggedOut [] s hs k = k
run-IsLoggedOut (e ∷ es) s (h, hs) k = run-IsLoggedOut es (step e s) hs (step-IsLoggedOut e s h k)

-- After a logout, in whatever state, no events bring a user, a token or a stored user back, whatever
-- the server answers, as long as nobody else writes the storage, and no request for the profile that
-- was open at the logout is answered with a user: that answer, when it comes, shows the user again and
-- stores it, without a token.
pub run-logout-IsLoggedOut :
    (es : List AuthEvent) (s : AuthState)
    → All IsHarmless es
    → IsLoggedOut (run es (logout s))
      × ((u : User)
          → let t = step (comes_late (accepted (some u))) (run es (logout s)) in
            (t.user ≡ some u) × (t.stored_user ≡ holds (some u)) × (t.token ≡ none))
unfolding step after_me
run-logout-IsLoggedOut es s hs =
    let out = run-IsLoggedOut es (logout s) hs (logout-IsLoggedOut s) in
    (out, λ u. (refl, refl, out.token))

abbrev pub KeepsStorage : AuthState → AuthState → Type 0
KeepsStorage s t = (t.token ≡ s.token) × (t.stored_user ≡ s.stored_user)

-- What each answer to a request with a token leaves.
abbrev pub Outcome : Reply (Option User) → AuthState → AuthState → Type 0
Outcome (failed m) s t = (t.user ≡ none) × KeepsStorage s t
Outcome (refused status error) s t =
    ((status ≡ 401) × IsLoggedOut t) ⊎ ((status ≢ 401) × (t.user ≡ none) × KeepsStorage s t)
Outcome (garbled m) s t = (t.user ≡ none) × KeepsStorage s t
Outcome (accepted u) s t = (t.user ≡ u) × (t.token ≡ s.token) × (t.stored_user ≡ holds u)

after_me-Outcome :
    (reply : Reply (Option User)) (s : AuthState)
    → Outcome reply s (after_me reply s) × ((after_me reply s).loading ≡ false)
unfolding after_me
after_me-Outcome (failed m) s = ((refl, (refl, refl)), refl)
after_me-Outcome (refused status error) s = ground arith
after_me-Outcome (garbled m) s = ((refl, (refl, refl)), refl)
after_me-Outcome (accepted u) s = ((refl, refl, refl), refl)

from_loading :
    (reply : Reply (Option User)) (s t : AuthState)
    → Outcome reply (record s { loading = true }) t
    → Outcome reply s t
from_loading (failed m) s t o = o
from_loading (refused status error) s t o = o
from_loading (garbled m) s t o = o
from_loading (accepted u) s t o = o

-- Loading the profile with no token leaves no user and the storage as it was. With one, a user is
-- shown only if the server sends it, and is then stored; a 401 clears the user, the token and the
-- stored user; any other failure clears the user alone. Nothing is loading afterwards.
pub load_profile-Outcome :
    (reply : Reply (Option User)) (s : AuthState)
    → let t = load_profile reply s in
      ((truthy s.token ≡ false) × ((t.user ≡ none) × KeepsStorage s t)
        ⊎ (truthy s.token ≡ true) × Outcome reply s t)
      × (t.loading ≡ false)
unfolding load_profile
load_profile-Outcome reply s = elim (Bool-cases (truthy s.token)) [
  | inr e ↦ rw e (inl (refl, (refl, (refl, refl))), refl)
  | inl e ↦
      let b : AuthState = record s { loading = true } in
      let (outcome, done) = after_me-Outcome reply b in
      rw e (inr (refl, from_loading reply s (after_me reply b) outcome), done)
]
