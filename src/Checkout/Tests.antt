-- ===== src/Checkout/Tests.antt =====
-- Runs of front/src/app/checkout/page.tsx.
use go_moda_mayor.Cents.{cents}
use go_moda_mayor.Prelude.{ℕ, ◌≡◌, refl, none, some, [], ◌∷◌}
use go_moda_mayor.Prelude.Decimal.{show_ℕ}
use go_moda_mayor.Checkout.{CheckoutCart, CheckoutItem, complete_path, line, unit_price}

abbrev shirt : CheckoutItem ℕ
shirt = record { id = 8; quantity = some 3; name = some "shirt"; wholesale_price = some 250 }

abbrev a_cart : CheckoutCart ℕ
a_cart = record { id = record { upper = some 12; lower = some 0 }; items = some (shirt ∷ []) }

path_of_cart : complete_path (some a_cart) ≡ "/checkout/12/complete"
unfolding complete_path show_ℕ
path_of_cart = refl

wholesale : (line 0 (λ q. q) none shirt).amount ≡ 750
unfolding line unit_price
wholesale = refl
