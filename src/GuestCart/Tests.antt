-- ===== src/GuestCart/Tests.antt =====
-- Runs of front/src/utils/guestCart.ts, and its theorems at concrete inputs. The storage keeps the
-- cart itself as its text.
use go_moda_mayor.Prelude.{ℕ, zero, suc, ◌≡◌, refl, true, none, some, List, [], ◌∷◌}
use go_moda_mayor.Prelude.Int.{pos, ◌+ℤ◌}
use go_moda_mayor.GuestCart.{Browser, get_guest_cart, set_guest_cart, add_to_guest_cart}
use go_moda_mayor.GuestCart.Items.{GuestCartItem, add_item, absent, undef, value}
use go_moda_mayor.GuestCart.Quantity.{quantity_of}
use go_moda_mayor.GuestCart.Keys.{Call, add, update, run_calls, IsKeyed, run_calls-IsKeyed}
use go_moda_mayor.GuestCart.Refine.{quantities, replay, run_calls_refines}
use go_moda_mayor.GuestCart.Shelf.{shelf, shelf-IsJson, shelf-HasRoom}
use go_moda_mayor.GuestCart.Migrate.{AddReply, added, no_connection, migrate_guest_cart_to_server}
use go_moda_mayor.GuestCart.Migrate.Report.{IsMigrated, migrate_guest_cart_to_server-IsMigrated}

abbrev shirt : ℕ → GuestCartItem ℕ
shirt n = record {
  product_id = 4;
  variant_id = 1;
  quantity = pos n;
  metadata = some (record {
    product_name = value "Remera";
    variant_name = absent;
    image_url = undef;
    wholesale_price = value 900;
    color = value "rojo";
    size = absent;
  });
}

abbrev skirt : GuestCartItem ℕ
skirt = record { product_id = 4; variant_id = 2; quantity = pos 1; metadata = none }

abbrev browser : Browser ℕ (List (GuestCartItem ℕ))
browser = record { has_window = true; stored = some (shirt 2 ∷ skirt ∷ []); events = [] }

abbrev fresh : Browser ℕ (List (GuestCartItem ℕ))
fresh = record { has_window = true; stored = none; events = [] }

adds_up : quantity_of 4 1 (get_guest_cart (add_to_guest_cart (shirt 3) browser)) ≡ some (pos 5)
unfolding quantity_of get_guest_cart add_to_guest_cart set_guest_cart add_item ◌+ℤ◌
adds_up = refl

abbrev session : List (Call ℕ)
session = add (shirt 2) ∷ add skirt ∷ add (shirt 3) ∷ update 4 2 (pos 0) ∷ []

run_calls-IsKeyed_example : IsKeyed (run_calls session fresh)
run_calls-IsKeyed_example =
    run_calls-IsKeyed shelf-IsJson session fresh (unfold get_guest_cart in tt)

run_calls_refines_example : quantities (run_calls session fresh) ≡ replay session (quantities fresh)
run_calls_refines_example = run_calls_refines shelf-IsJson shelf-HasRoom session fresh refl

-- The first request is accepted, and the others cannot be sent.
abbrev flaky : ℕ → AddReply
flaky zero = added
flaky (suc k) = no_connection

migrate_guest_cart_to_server-IsMigrated_example :
    let done = migrate_guest_cart_to_server "t" flaky browser in
    IsMigrated "t" flaky (get_guest_cart browser) done.0 done.1
migrate_guest_cart_to_server-IsMigrated_example =
    migrate_guest_cart_to_server-IsMigrated "t" flaky browser
