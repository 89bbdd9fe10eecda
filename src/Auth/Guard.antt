-- ===== src/Auth/Guard.antt =====
-- front/src/hooks/useRequireAuth.ts and front/src/components/AdminGuard.tsx. The language's
-- `toLowerCase` is a parameter, of which nothing is assumed.
use text.Mathlib.TextEquality.{eq_iff}
use text.Mathlib.TextPositions.{eq_refl}
use go_moda_mayor.Prelude.{
  ◌≡◌, refl, Bool, true, false, not, ◌&&◌, ◌||◌, Option, none, some, List, [], ◌∷◌, String, arith,
  str_eq, if◌then◌else◌, any, inl, inr, ◌↔◌, is_some, Bool-cases, Option-cases,
}
use go_moda_mayor.Auth.{User}

-- `useAuth()`: null outside the provider, or its user and whether it is loading.
pub record AuthContext : Type 0 where
  pub user : Option User
  pub loading : Bool

abbrev pub loading_of : Option AuthContext → Bool
loading_of none = false
loading_of (some c) = c.loading

abbrev pub user_of : Option AuthContext → Option User
user_of none = none
user_of (some c) = c.user

-- What the effect of `useRequireAuth` does: it waits, goes to the login with the way back, warns
-- and goes to the start page, or lets the page be.
pub data Decision : Type 0 where
  wait to_login to_start stay : Decision

-- What `AdminGuard` shows.
pub data GuardView : Type 0 where
  verifying redirecting children : GuardView

abbrev pub is_empty : List String → Bool
is_empty [] = true
is_empty (r ∷ rs) = false

module _ (to_lower_case : String → String) where
  unfoldable pub allows : List String → User → Bool
  allows roles u = any (λ r. str_eq (to_lower_case r) (to_lower_case u.role)) roles

  -- `allowedRoles` given and not empty.
  check_roles : Option (List String) → User → Decision
  unfolding allows
  check_roles none u = stay
  check_roles (some roles) u =
      if not (is_empty roles) && not (allows roles u) then to_start else stay

  decide : Option (List String) → Option User → Decision
  unfolding check_roles
  decide roles none = to_login
  decide roles (some u) = check_roles roles u

  pub require_auth : Option (List String) → Option AuthContext → Decision
  unfolding decide
  require_auth roles c = if loading_of c then wait else decide roles (user_of c)

abbrev role_of : Option User → String
role_of none = ""
role_of (some u) = u.role

-- `allowedRoles.includes(role)`
abbrev pub has : List String → String → Bool
has roles role = any (λ r. str_eq r role) roles

pub admin_guard : List String → Option AuthContext → GuardView
admin_guard roles c =
    if loading_of c
    then verifying
    else if not (is_some (user_of c)) || not (has roles (role_of (user_of c)))
    then redirecting
    else children

-- The parameter `allowedRoles`, if it is not given.
abbrev pub default_roles : List String
default_roles = "admin" ∷ "encargado" ∷ []

or-true : (b : Bool) → (b || true) ≡ true
or-true true = refl
or-true false = refl

stay_if : (b : Bool) → (if not b && false then to_start else stay) ≡ stay
stay_if true = refl
stay_if false = refl

module _ (to_lower_case : String → String) where
  has-allows :
      (roles : List String) (u : User)
      → has roles u.role ≡ true
      → allows to_lower_case roles u ≡ true
  unfolding allows
  has-allows [] u h = cc
  has-allows (r ∷ rs) u h = elim (Bool-cases (str_eq r u.role)) [
    | inl e ↦ rw ((eq_iff r u.role).0 e, eq_refl (to_lower_case u.role))
    | inr e ↦
        rw (has-allows rs u (rw e at h)) (or-true (str_eq (to_lower_case r) (to_lower_case u.role)))
  ]

  children-user :
      (roles : List String) (c : Option AuthContext)
      → admin_guard roles c ≡ children
      → (u : User) × (loading_of c ≡ false) × (user_of c ≡ some u) × (has roles u.role ≡ true)
  unfolding admin_guard
  children-user roles none e = cc
  children-user roles (some c) e = elim (Option-cases c.user) [
    | inl missing ↦ absurd (ground arith)
    | inr (u, found) ↦ (u, ground arith, found, ground arith)
  ]

  user-children :
      (roles : List String) (c : Option AuthContext) (u : User)
      → loading_of c ≡ false
      → user_of c ≡ some u
      → has roles u.role ≡ true
      → (admin_guard roles c ≡ children) × (require_auth to_lower_case (some roles) c ≡ stay)
  unfolding admin_guard require_auth
  user-children roles c u loaded found listed =
      rw (loaded, found, listed, has-allows roles u listed) (refl, stay_if (is_empty roles))

  -- The guard shows its children exactly to a user who is loaded and whose role is, letter for
  -- letter, in the list; and then the hook inside it lets the page be.
  pub admin_guard_lem :
      (roles : List String) (c : Option AuthContext)
      → ((admin_guard roles c ≡ children) ↔ (
          (u : User) × (loading_of c ≡ false) × (user_of c ≡ some u) × (has roles u.role ≡ true)))
        × (admin_guard roles c ≡ children → require_auth to_lower_case (some roles) c ≡ stay)
  admin_guard_lem roles c = (
    (
      children-user roles c,
      λ (u, loaded, found, listed). (user-children roles c u loaded found listed).0,
    ),
    λ e.
        let (u, loaded, found, listed) = children-user roles c e in
        (user-children roles c u loaded found listed).1,
  )

  -- A loaded user whose role is in the list but for the case of its letters is not sent away by the
  -- hook, and the guard shows the redirection to them all the same.
  pub admin_guard_stuck :
      (roles : List String) (u : User)
      → has roles u.role ≡ false
      → allows to_lower_case roles u ≡ true
      → let c : Option AuthContext = some (record { user = some u; loading = false }) in
        (admin_guard roles c ≡ redirecting) × (require_auth to_lower_case (some roles) c ≡ stay)
  unfolding admin_guard require_auth
  admin_guard_stuck roles u exact folded = rw (exact, folded) (refl, stay_if (is_empty roles))
