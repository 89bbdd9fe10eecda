-- ===== src/Login/Tests.antt =====
-- Runs of front/src/app/login/page.tsx, and its theorems at concrete inputs. Roles are written in lower
-- case already.
use go_moda_mayor.Prelude.{ℕ, zero, suc, ◌≡◌, refl, true, false, some, none, List, [], ◌∷◌}
use go_moda_mayor.Prelude.Int.{pos}
use go_moda_mayor.Net.{Reply, failed, accepted}
use go_moda_mayor.GuestCart.Items.{GuestCartItem}
use go_moda_mayor.GuestCart.Shelf.{shelf}
use go_moda_mayor.GuestCart.Migrate.{AddReply, added, no_connection}
use go_moda_mayor.Auth.{User, missing}
use go_moda_mayor.Login.{LoginData, Answers, LoginState, target_of, welcome, welcome_some}

abbrev ana : User
ana = record { id = 3; name = "Ana"; email = "ana"; role = "vendedora" }

abbrev skirt : GuestCartItem ℕ
skirt = record { product_id = 4; variant_id = 2; quantity = pos 1; metadata = none }

abbrev start : LoginState ℕ (List (GuestCartItem ℕ))
start = record {
  browser = record { has_window = true; stored = some (skirt ∷ skirt ∷ []); events = [] };
  auth = record {
    mounted = true;
    user = none;
    loading = false;
    token = none;
    stored_user = missing;
  };
  error = none;
  success = none;
  alerts = [];
  pushed = [];
  posted = [];
}

abbrev ticket : LoginData
ticket = record { token = "t"; user = some ana }

-- The second item cannot be posted.
abbrev flaky : ℕ → AddReply
flaky zero = added
flaky (suc k) = no_connection

abbrev answers : Reply LoginData → Answers
answers login = record {
  login = login;
  adds = flaky;
  me = failed "";
  after_migration = accepted (some ana);
  after_login = failed "";
}

seller_home : target_of (λ s. s) (some ana) ≡ "/vendedora/carritos"
unfolding target_of
seller_home = refl

partly_welcome :
    welcome (record {
      total_items = 3;
      success_count = 2;
      error_count = 1;
      items_added = [];
      errors = [];
    })
    ≡ welcome_some 2 1
unfolding welcome
partly_welcome = refl
