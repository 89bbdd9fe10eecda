-- ===== src/Sales.antt =====
-- front/src/hooks/useSales.ts, the sales of the administration and the orders of a customer, and the
-- filter of front/src/app/admin/ventas/page.tsx. The language's `toLowerCase` is a parameter, of
-- which nothing is assumed.
pub mod Laws
pub mod Counts
mod Tests
use text.Mathlib.Text.{find?}
use go_moda_mayor.Prelude.{
  ℕ, Bool, true, false, not, ◌&&◌, ◌||◌, Option, none, some, List, [], ◌∷◌, ◌++◌, String, ◌==◌,
  if◌then◌else◌, truthy, text_or, get_or, is_some, str_eq, concat, keep, length,
}
use go_moda_mayor.Prelude.Decimal.{show_ℕ}
use go_moda_mayor.Orders.{
  Spelled, OrderUser, RawOrder, Order, Result, ok, thrown, Response, fetch_orders, fetch_my_orders,
  update_order_status,
}
use go_moda_mayor.Orders.AuthText.{shown_message}
use go_moda_mayor.Summary.{same_id}

-- An instance of the hook, the token of the storage and the toasts that were shown.
pub record SalesState (F P : Type 0) : Type 0 where
  pub user_orders_only : Bool
  pub orders : List (Order F P)
  pub loading : Bool
  pub error : Option String
  pub token : Option String
  pub toasts : List String

-- The answers to the requests of one load: the profile, which only a customer's load asks for, and
-- the orders.
pub record LoadReplies (F P : Type 0) : Type 0 where
  pub profile : Response (Spelled ℕ)
  pub orders : Response (Option (List (RawOrder F P)))

module _ {F P : Type 0} where
  settle : Result (List (Order F P)) → SalesState F P → SalesState F P
  settle (ok orders) s = record s { orders = orders; loading = false }
  settle (thrown m) s = record s { error = some (shown_message m); loading = false }

  request : F → LoadReplies F P → SalesState F P → Result (List (Order F P))
  request zero r s =
      if s.user_orders_only
      then fetch_my_orders zero s.token r.profile r.orders
      else fetch_orders zero none s.token r.orders

  pub load : F → LoadReplies F P → SalesState F P → SalesState F P
  unfolding settle request
  load zero r s = settle (request zero r s) (record s { loading = true; error = none })

  after_update : F → Result Bool → LoadReplies F P → SalesState F P → Bool × SalesState F P
  after_update zero (ok done) r s =
      let t = load zero r s in (true, record t { toasts = t.toasts ++ "Estado actualizado" ∷ [] })
  after_update zero (thrown m) r s =
      let text = concat ("Error: " ∷ m ∷ []) in
      (false, record s { error = some text; toasts = s.toasts ++ text ∷ [] })

  -- `String(e)` of an error is its name and its message.
  pub change_status :
      F → Option ℕ → Response (Unit {0}) → LoadReplies F P → SalesState F P → Bool × SalesState F P
  unfolding after_update
  change_status zero none response r s = (false, s)
  change_status zero (some id) response r s =
      if id == 0
      then (false, s)
      else after_update zero (update_order_status s.token s.token response) r s

completed_text : String → Bool
completed_text status =
    str_eq status "pagado"
    || str_eq status "completado"
    || str_eq status "completada"
    || str_eq status "finalizada"

pending_text : String → Bool
pending_text status =
    str_eq status "creada"
    || str_eq status "asignada"
    || str_eq status "procesando"
    || str_eq status "pendiente_pago"
    || str_eq status "listo_para_pago"
    || str_eq status "esperando_vendedora"

module _ (to_lower_case : String → String) {F P : Type 0} where
  -- `(o.status || "").toLowerCase()`
  status_of : Order F P → String
  status_of o = to_lower_case (text_or o.status "")

  pub is_completed : Order F P → Bool
  unfolding status_of
  is_completed o = completed_text (status_of o)

  pub is_pending : Order F P → Bool
  unfolding status_of
  is_pending o = pending_text (status_of o)

-- `reduce((s, o) => s + (o.total ?? 0), 0)`, from its running sum; `normalizeOrder` sets the total.
pub add_totals : {F P : Type 0} → (F → F → F) → F → List (Order F P) → F
add_totals add sum [] = sum
add_totals add sum (o ∷ os) = add_totals add (add sum o.total) os

pub record Stats (F : Type 0) : Type 0 where
  pub total_orders : ℕ
  pub total_revenue : F
  pub pending : ℕ
  pub completed : ℕ

pub stats : {F P : Type 0} → (String → String) → (F → F → F) → F → List (Order F P) → Stats F
stats to_lower_case add zero orders = record {
  total_orders = length orders;
  total_revenue = add_totals add zero (keep (is_completed to_lower_case) orders);
  pending = length (keep (is_pending to_lower_case) orders);
  completed = length (keep (is_completed to_lower_case) orders);
}

-- The user of the page, as far as the filter looks at it.
pub record Viewer : Type 0 where
  pub role : String
  pub user_id : ℕ

abbrev includes : String → String → Bool
includes s t = is_some (find? s t)

abbrev name_of : Option OrderUser → Option String
name_of none = none
name_of (some u) = u.name

abbrev email_of : Option OrderUser → Option String
email_of none = none
email_of (some u) = u.email

-- `String(id)`, of an order that may have none.
abbrev show_id : Option ℕ → String
show_id none = "undefined"
show_id (some id) = show_ℕ id

-- `role === "vendedor" && o.assigned_to !== userId`
abbrev pub is_foreign : {F P : Type 0} → Option Viewer → Order F P → Bool
is_foreign none o = false
is_foreign (some v) o = str_eq v.role "vendedor" && not (same_id o.assigned_to (some v.user_id))

module _ (to_lower_case : String → String) {F P : Type 0} where
  matches_text : String → Order F P → Bool
  matches_text q o =
      includes (show_id o.id) (to_lower_case q)
      || includes (to_lower_case (text_or (name_of o.user) "")) (to_lower_case q)
      || includes (to_lower_case (text_or (email_of o.user) "")) (to_lower_case q)

  pub shows : Option Viewer → String → String → Order F P → Bool
  unfolding matches_text status_of
  shows v q status o =
      if is_foreign v o
      then false
      else if not (str_eq status "")
          && not (str_eq (status_of to_lower_case o) (to_lower_case status))
      then false
      else if not (str_eq q "")
      then matches_text q o
      else true

  pub filtered : Option Viewer → String → String → List (Order F P) → List (Order F P)
  unfolding shows
  filtered v q status orders = keep (shows v q status) orders
