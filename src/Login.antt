-- ===== src/Login.antt =====
-- front/src/app/login/page.tsx: the login, with the migration of the guest's cart, the profile that is
-- stored, and the page that a user is sent to. The alerts follow after half a second, and the sign ⚠
-- stands without its invisible variation selector.
pub mod Outcome
mod Tests
use go_moda_mayor.Prelude.{
  ℕ, Bool, true, false, ◌||◌, Option, none, some, List, [], ◌∷◌, ◌++◌, String, ◌==◌, ltb,
  if◌then◌else◌, str_eq, truthy, concat,
}
use go_moda_mayor.Prelude.Int.{pos, ltb_ℤ}
use go_moda_mayor.Prelude.Decimal.{show_ℕ}
use go_moda_mayor.Net.{Reply, failed, refused, garbled, accepted}
use go_moda_mayor.GuestCart.{Store, Browser, get_guest_cart_item_count}
use go_moda_mayor.GuestCart.Migrate.{
  AddReply, AddRequest, MigrationResult, migrate_guest_cart_to_server,
}
use go_moda_mayor.Auth.{User, StoredUser, holds, AuthState, auth_changed, step}

-- The JSON of the answer to `POST /login`.
pub record LoginData : Type 0 where
  pub token : String
  pub user : Option User

-- The answers to the login, to the posted items, to `GET /me`, and to the session's own requests after
-- the two events `auth:changed`.
pub record Answers : Type 0 where
  pub login : Reply LoginData
  pub adds : ℕ → AddReply
  pub me : Reply (Option User)
  pub after_migration : Reply (Option User)
  pub after_login : Reply (Option User)

-- The page, the guest's cart, the session with the storage's token and user, and what was alerted,
-- pushed to the router and posted to the cart, in order.
pub record LoginState (F T : Type 0) : Type 0 where
  pub browser : Browser F T
  pub auth : AuthState
  pub error : Option String
  pub success : Option String
  pub alerts : List String
  pub pushed : List String
  pub posted : List AddRequest

abbrev welcome_all : ℕ → String
welcome_all added = concat (
    "✅ ¡Bienvenido!\n\nSe "
    ∷ (if added == 1 then "agregó" else "agregaron")
    ∷ " "
    ∷ show_ℕ added
    ∷ " "
    ∷ (if added == 1 then "producto" else "productos")
    ∷ " a tu carrito."
    ∷ [])

abbrev welcome_some : ℕ → ℕ → String
welcome_some added lost = concat (
    "⚠ Login exitoso\n\n"
    ∷ show_ℕ added
    ∷ " producto"
    ∷ (if ltb 1 added then "s agregados" else " agregado")
    ∷ " correctamente.\n"
    ∷ show_ℕ lost
    ∷ " no "
    ∷ (if ltb 1 lost then "pudieron agregarse" else "pudo agregarse")
    ∷ "."
    ∷ [])

abbrev welcome_none : String
welcome_none = concat (
    "❌ Login exitoso\n\nHubo un problema al agregar los productos del carrito.\n"
    ∷ "Por favor, agrégalos nuevamente." ∷ [])

-- The alert by the result of the migration.
pub welcome : MigrationResult → String
welcome r =
    if r.error_count == 0
    then welcome_all r.success_count
    else if ltb 0 r.success_count
    then welcome_some r.success_count r.error_count
    else welcome_none

-- The profile in hand, and the item `user` of the storage.
abbrev pub profile_of : Option User → Reply (Option User) → Option User
profile_of (some u) me = some u
profile_of none (accepted p) = p
profile_of none (failed m) = none
profile_of none (refused status error) = none
profile_of none (garbled m) = none

abbrev pub stored_of : Option User → Reply (Option User) → StoredUser → StoredUser
stored_of (some u) me old = holds (some u)
stored_of none (accepted p) old = holds p
stored_of none (failed m) old = old
stored_of none (refused status error) old = old
stored_of none (garbled m) old = old

-- `to_lower_case` is the language's.
module _ (to_lower_case : String → String) where
  abbrev pub role_of : Option User → String
  role_of none = ""
  role_of (some u) = if truthy (some u.role) then to_lower_case u.role else ""

  pub target_of : Option User → String
  target_of profile =
      let role = role_of profile in
      if str_eq role "admin" || str_eq role "encargado"
      then "/admin"
      else if str_eq role "vendedor" || str_eq role "vendedora"
      then "/vendedora/carritos"
      else "/"

module _ {F T : Type 0} ⦃s : Store F T⦄ (answers : Answers) where
  -- The migration catches the failures of its requests itself, so that the `catch` around it is never
  -- reached.
  migrate : String → LoginState F T → LoginState F T
  unfolding welcome
  migrate token p =
      let done = migrate_guest_cart_to_server token answers.adds p.browser in
      record p {
        browser = done.2;
        posted = p.posted ++ done.1;
        alerts = p.alerts ++ (welcome done.0 ∷ []);
        auth = step (auth_changed answers.after_migration) p.auth;
      }

  -- `if (guestCartCount > 0)`
  migrate_some : String → LoginState F T → LoginState F T
  unfolding migrate
  migrate_some token p =
      if ltb_ℤ (pos 0) (get_guest_cart_item_count p.browser) then migrate token p else p

  module _ (to_lower_case : String → String) where
    -- The profile is stored, the session is told, and the user is sent to the page of the role.
    enter : Option User → LoginState F T → LoginState F T
    enter user p = record p {
      auth =
          step (auth_changed answers.after_login)
            (record p.auth { stored_user = stored_of user answers.me p.auth.stored_user });
      pushed = p.pushed ++ (target_of to_lower_case (profile_of user answers.me) ∷ []);
    }

    after_login : Reply LoginData → LoginState F T → LoginState F T
    unfolding migrate_some enter
    after_login (failed m) p = record p { error = some m }
    after_login (refused status error) p = record p { error = some "Credenciales inválidas" }
    after_login (garbled m) p = record p { error = some m }
    after_login (accepted d) p =
        enter d.user
          (migrate_some d.token (record p { auth = record p.auth { token = some d.token } }))

    pub handle_login : LoginState F T → LoginState F T
    unfolding after_login
    handle_login p = after_login answers.login (record p { error = none; success = none })
