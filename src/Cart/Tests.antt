-- ===== src/Cart/Tests.antt =====
-- Runs of front/src/hooks/useCart.ts, and its theorems at concrete inputs. A cart is a number.
use go_moda_mayor.Prelude.{ℕ, ◌≡◌, refl, false, some, none, List, [], ◌∷◌}
use go_moda_mayor.Prelude.Int.{pos}
use go_moda_mayor.Net.{Ack, accepted, acked}
use go_moda_mayor.Cart.{
  CartState, put_quantity, fetch_cart, handle_auth_error, off_login, Event, fetches, removes,
  other_mounts, run,
}
use go_moda_mayor.Cart.Sync.{InSync, run-InSync}
use go_moda_mayor.Cart.Errors.{update, act, SameCarts, act-unauthorized}

abbrev page : CartState ℕ
page = record {
  cart = some 1;
  loading = false;
  error = "";
  message = "";
  token = some "abc";
  path = "/productos";
  redirects = 0;
  global = some 1;
  others = some 1 ∷ [];
  sent = [];
}

redirects_once : (handle_auth_error 401 none page).0.redirects ≡ 1
unfolding handle_auth_error off_login
redirects_once = refl

abbrev life : List (Event ℕ)
life = fetches (accepted 5) ∷ other_mounts ∷ removes 3 none acked (accepted 6) ∷ []

run-InSync_example : InSync (run life page)
run-InSync_example = run-InSync life page (record { own = refl; others = (refl, tt) })

act-unauthorized_example :
    let t = act (update 3 (pos 2)) (Ack.refused 401 none) (accepted 8) page in
    (t.token ≡ none)
    × SameCarts page t
    × (t.loading ≡ false)
    × (t.sent ≡ put_quantity "Bearer abc" 3 none (pos 2) ∷ [])
    × (t.redirects ≡ 1)
    × (fetch_cart (accepted 8) t ≡ t)
unfolding off_login
act-unauthorized_example = act-unauthorized (update 3 (pos 2)) none (accepted 8) (accepted 8) page
