-- ===== src/Auth/Tests.antt =====
-- The theorems on front/src/contexts/AuthContext.tsx, useRequireAuth.ts and AdminGuard.tsx at
-- concrete inputs.
use go_moda_mayor.Prelude.{
  ◌≡◌, true, false, Option, none, some, [], ◌∷◌, List, String, ◌↔◌, str_eq, if◌then◌else◌,
}
use go_moda_mayor.Net.{failed, accepted}
use go_moda_mayor.Auth.{
  User, holds, AuthState, AuthEvent, starts, auth_changed, refreshes, comes_late, step, run, logout,
}
use go_moda_mayor.Auth.Session.{IsLoggedOut, run-logout-IsLoggedOut}
use go_moda_mayor.Auth.Guard.{
  AuthContext, loading_of, user_of, children, stay, has, default_roles, admin_guard, require_auth,
  admin_guard_lem,
}

abbrev ana : User
ana = record { id = 1; name = "Ana"; email = "a@b"; role = "admin" }

abbrev session : AuthState
session = record {
  mounted = true;
  user = some ana;
  loading = false;
  token = some "t";
  stored_user = holds (some ana);
}

abbrev life : List AuthEvent
life =
    auth_changed (accepted (some ana))
    ∷ refreshes (failed "sin red")
    ∷ starts (accepted none)
    ∷ comes_late (failed "tarde")
    ∷ []

run-logout-IsLoggedOut_example :
    IsLoggedOut (run life (logout session))
    × ((u : User)
        → let t = step (comes_late (accepted (some u))) (run life (logout session)) in
          (t.user ≡ some u) × (t.stored_user ≡ holds (some u)) × (t.token ≡ none))
run-logout-IsLoggedOut_example = run-logout-IsLoggedOut life session (tt, (tt, (tt, (tt, tt))))

-- Lower case, as far as the test needs it.
abbrev lower : String → String
lower s = if str_eq s "ADMIN" then "admin" else s

abbrev context : Option AuthContext
context = some (record { user = some ana; loading = false })

admin_guard_lem_example :
    ((admin_guard default_roles context ≡ children) ↔ (
      (u : User) × (loading_of context ≡ false)
      × (user_of context ≡ some u)
      × (has default_roles u.role ≡ true)))
    × (admin_guard default_roles context ≡ children
        → require_auth lower (some default_roles) context ≡ stay)
admin_guard_lem_example = admin_guard_lem lower default_roles context
