-- ===== src/Sales/Tests.antt =====
-- Runs of front/src/hooks/useSales.ts and of the orders of front/src/utils/api.ts, and their theorems
-- at concrete inputs.
use go_moda_mayor.Prelude.Decimal.{show_ℕ}
use go_moda_mayor.Prelude.Split.{split, join}
use go_moda_mayor.Prelude.{
  if◌then◌else◌, str_eq, ℕ, ◌≡◌, refl, none, some, List, [], ◌∷◌, String, keep,
}
use go_moda_mayor.Orders.{Order, ErrorBody, json, normalize_order}
use go_moda_mayor.Orders.AuthText.{auth_error, shown_message}
use go_moda_mayor.Orders.Normalize.{
  capital, small, OrderNames, order_in, expected, normalize_order-order_in,
}
use go_moda_mayor.Sales.{Viewer, filtered}
use go_moda_mayor.Sales.Counts.{is_of, filtered-own}

abbrev an_order : ℕ → String → Order ℕ ℕ
an_order seller status = record {
  id = some 7;
  user_id = none;
  user = some (record { id = record { upper = some 3; lower = none }; name = none; email = none });
  assigned_to = some seller;
  assigned_to_user = none;
  status = some status;
  total = 500;
  items = [];
  created_at = none;
}

abbrev orders : List (Order ℕ ℕ)
orders = an_order 4 "pagado" ∷ an_order 5 "creada" ∷ an_order 4 "enviado" ∷ []

shown_text : shown_message (auth_error 401 "a:b") ≡ "a:b"
unfolding shown_message auth_error split join show_ℕ
shown_text = refl

abbrev denial : ErrorBody
denial = json none (some "Token vencido: entre de nuevo")

-- Texts that are in lower case already.
abbrev lower : String → String
lower s = s

abbrev seller : Viewer
seller = record { role = "vendedor"; user_id = 4 }

filtered-own_example :
    let asked = filtered lower none "ana" "pagado" orders in
    (filtered lower (some seller) "ana" "pagado" orders
      ≡ (if str_eq seller.role "vendedor" then keep (is_of seller) asked else asked))
    × (filtered lower none "" "" orders ≡ orders)
filtered-own_example = filtered-own lower seller "ana" "pagado" orders

-- The names that the server gives to the properties of an order, and of an item.
abbrev names : OrderNames ℕ ℕ
names = record {
  id = capital;
  user_id = small;
  user = capital;
  assigned_to = small;
  assigned_to_user = capital;
  status = small;
  total = small;
  items = small;
  item = record {
    id = capital;
    product_id = small;
    product = small;
    ids = record { upper = some 12; lower = none };
    variant_id = small;
    variant_size = small;
    variant_color = small;
    quantity = small;
    price = small;
  };
  created_at = capital;
  camel = none;
}

normalize_order-order_in_example :
    normalize_order 0 (order_in names (an_order 4 "pagado")) ≡ expected names (an_order 4 "pagado")
normalize_order-order_in_example = normalize_order-order_in 0 names (an_order 4 "pagado")
