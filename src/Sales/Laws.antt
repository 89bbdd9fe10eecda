-- ===== src/Sales/Laws.antt =====
-- Errors of authentication in front/src/hooks/useSales.ts: what a load shows, and what a change of
-- status shows.
use go_moda_mayor.Prelude.{
  ℕ, ◌≡◌, refl, true, false, Option, none, some, List, [], ◌∷◌, String, ◌==◌, truthy, text_or,
  concat, inl, inr, Bool-cases, Option-cases, ap, if◌then◌else◌,
}
use go_moda_mayor.Orders.{
  RawOrder, thrown, Response, bad, ErrorBody, is_auth_status, parse_response_error,
}
use go_moda_mayor.Orders.AuthText.{auth_error, shown_message-auth_error}
use go_moda_mayor.Orders.Errors.{fetch_orders-auth, fetch_my_orders-auth, update_order_status-auth}
use go_moda_mayor.Sales.{
  SalesState, LoadReplies, request, settle, load, change_status, after_update,
}

module _ {F P : Type 0} (zero : F) where
  request-auth :
      (status : ℕ) (status_text : String) (body : ErrorBody)
      (other : Response (Option (List (RawOrder F P)))) (s : SalesState F P)
      → truthy s.token ≡ true
      → is_auth_status status ≡ true
      → request zero
          (record {
            profile = bad status status_text body;
            orders = if s.user_orders_only then other else bad status status_text body;
          })
          s
        ≡ thrown (auth_error status (parse_response_error status status_text body))
  unfolding request
  request-auth status status_text body other s h denied = elim (Bool-cases s.user_orders_only) [
    | inl e ↦ rw e (fetch_my_orders-auth zero s.token status status_text body other h denied)
    | inr e ↦ rw e (fetch_orders-auth zero s.token status status_text body h denied)
  ]

  -- If the session has a token and the server answers the orders of the administration, or the
  -- profile of a customer, with 401 or 403, the load shows just the text of that answer, or "No
  -- autorizado" if it is empty; it keeps the orders that were shown, and nothing is loading.
  pub load-unauthorized :
      (status : ℕ) (status_text : String) (body : ErrorBody)
      (other : Response (Option (List (RawOrder F P)))) (s : SalesState F P)
      → truthy s.token ≡ true
      → is_auth_status status ≡ true
      → let replies : LoadReplies F P = record {
        profile = bad status status_text body;
        orders = if s.user_orders_only then other else bad status status_text body;
      } in
        let t = load zero replies s in
        (t.error
          ≡ some (text_or (some (parse_response_error status status_text body)) "No autorizado"))
        × (t.orders ≡ s.orders)
        × (t.loading ≡ false)
  unfolding load
  load-unauthorized status status_text body other s h denied =
      let text = parse_response_error status status_text body in
      let begun : SalesState F P = record s { loading = true; error = none } in
      rw (request-auth status status_text body other begun h denied) (
        unfold settle in
        (ap (λ (m : String). some m) (shown_message-auth_error status text), refl, refl))

  -- A change of status that is so refused shows the marked text itself, with its prefix and number.
  pub change_status-unauthorized :
      (id status : ℕ) (status_text : String) (body : ErrorBody) (replies : LoadReplies F P)
      (s : SalesState F P)
      → (id == 0) ≡ false
      → truthy s.token ≡ true
      → is_auth_status status ≡ true
      → let (changed, t) = change_status zero (some id) (bad status status_text body) replies s in
        (changed ≡ false)
        × (t.orders ≡ s.orders)
        × (t.error
            ≡ some (
                concat (
                  "Error: "
                  ∷ auth_error status (parse_response_error status status_text body)
                  ∷ [])))
  unfolding change_status
  change_status-unauthorized id status status_text body replies s nonzero h denied =
      elim (Option-cases s.token) [
        | inl e ↦ absurd (cc (rw e at h))
        | inr (token, e) ↦
            rw
              (
                nonzero,
                e,
                update_order_status-auth token status status_text body (rw e at h) denied,
              )
              (unfold after_update in (refl, refl, refl))
      ]
