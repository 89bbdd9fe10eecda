-- ===== src/Orders/Errors.antt =====
-- What the requests of front/src/utils/api.ts throw for an answer 401 or 403 to a request with a
-- token.
use go_moda_mayor.Prelude.{ℕ, ◌≡◌, true, Option, none, some, List, String, truthy}
use go_moda_mayor.Orders.{
  RawOrder, thrown, Response, bad, ErrorBody, is_auth_status, refusal, parse_response_error,
  fetch_orders, fetch_my_orders, update_order_status,
}
use go_moda_mayor.Orders.AuthText.{auth_error}

refusal-auth :
    (fallback : String) (status : ℕ) (status_text : String) (body : ErrorBody)
    → is_auth_status status ≡ true
    → refusal true fallback status status_text body
      ≡ auth_error status (parse_response_error status status_text body)
unfolding refusal
refusal-auth fallback status status_text body denied = rw denied

module _ {F P : Type 0} (zero : F) where
  pub fetch_orders-auth :
      (stored : Option String) (status : ℕ) (status_text : String) (body : ErrorBody)
      → truthy stored ≡ true
      → is_auth_status status ≡ true
      → fetch_orders {P = P} zero none stored (bad status status_text body)
        ≡ thrown (auth_error status (parse_response_error status status_text body))
  unfolding fetch_orders
  fetch_orders-auth stored status status_text body h denied =
      rw (h, refusal-auth "Error al obtener pedidos" status status_text body denied)

  pub fetch_my_orders-auth :
      (stored : Option String) (status : ℕ) (status_text : String) (body : ErrorBody)
      (orders : Response (Option (List (RawOrder F P))))
      → truthy stored ≡ true
      → is_auth_status status ≡ true
      → fetch_my_orders zero stored (bad status status_text body) orders
        ≡ thrown (auth_error status (parse_response_error status status_text body))
  unfolding fetch_my_orders
  fetch_my_orders-auth stored status status_text body orders h denied =
      rw (h, refusal-auth "Error al obtener perfil" status status_text body denied)

pub update_order_status-auth :
    (token : String) (status : ℕ) (status_text : String) (body : ErrorBody)
    → truthy (some token) ≡ true
    → is_auth_status status ≡ true
    → update_order_status (some token) (some token) (bad status status_text body)
      ≡ thrown (auth_error status (parse_response_error status status_text body))
unfolding update_order_status
update_order_status-auth token status status_text body h denied =
    rw (h, refusal-auth "Error updating order status" status status_text body denied)
