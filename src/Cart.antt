-- ===== src/Cart.antt =====
-- front/src/hooks/useCart.ts: the cart that all instances of the hook share through `window`, and
-- the operations on it. A cart is whatever JSON the server sends, of the type `C`.
pub mod Sync
pub mod Errors
mod Tests
use text.Mathlib.Text.{find?}
use go_moda_mayor.Prelude.{
  ℕ, suc, ◌+◌, Bool, true, false, not, ◌&&◌, ◌||◌, Option, none, some, List, [], ◌∷◌, ◌++◌, map,
  String, ◌==◌, if◌then◌else◌, is_some, truthy, text_or,
}
use go_moda_mayor.Prelude.Int.{ℤ}
use go_moda_mayor.Net.{Reply, Ack, failed, refused, garbled, accepted, acked, bearer}

-- A request that the hook sends, with its header `Authorization`.
pub data Request : Type 0 where
  get_cart : String → Request
  put_quantity : String → ℕ → Option ℕ → ℤ → Request
  delete_item : String → ℕ → Option ℕ → Request
  delete_all : String → Request

-- One instance of the hook (`cart` to `message`), and what it shares: the storage's token, the path
-- of the page, the number of redirections to the login that are scheduled, `__globalCart`, the carts
-- of the other instances, whose listeners are registered, and the requests in the order of sending.
pub record CartState (C : Type 0) : Type 0 where
  pub cart : Option C
  pub loading : Bool
  pub error : String
  pub message : String
  pub token : Option String
  pub path : String
  pub redirects : ℕ
  pub global : Option C
  pub others : List (Option C)
  pub sent : List Request

abbrev pub includes : String → String → Bool
includes s t = is_some (find? s t)

module _ {C : Type 0} where
  -- `!currentPath.includes(...)`, twice.
  unfoldable pub off_login : CartState C → Bool
  off_login s = not (includes s.path "/login") && not (includes s.path "/register")

  -- The state after `handleAuthError`, and the message that it returns.
  pub handle_auth_error : ℕ → Option String → CartState C → CartState C × String
  handle_auth_error status error s =
      if status == 401
      then if off_login s
        then (
          record s { token = none; redirects = s.redirects + 1 },
          "Tu sesión ha expirado. Redirigiendo al login...",
        )
        else (record s { token = none }, "Sesión expirada. Por favor, inicia sesión nuevamente.")
      else (s, text_or error "Error en la operación")

  -- Writes `__globalCart` and calls every listener, then sets the instance's own cart.
  publish : Option C → CartState C → CartState C
  publish c s = record s { global = c; others = map (λ _. c) s.others; cart = c }

  pub set_cart : Option C → CartState C → CartState C
  unfolding publish
  set_cart c s = publish c s

  -- `setLoading(true)`, `setError("")`, `setMessage("")` and the request.
  abbrev pub begin : Request → CartState C → CartState C
  begin r s = record s { loading = true; error = ""; message = ""; sent = s.sent ++ r ∷ [] }

  -- The `catch` and the `finally`.
  abbrev fail : String → CartState C → CartState C
  fail message s = record s { error = message; loading = false }

  abbrev fail_auth : CartState C × String → CartState C
  fail_auth (s, message) = fail message s

  after_fetch : Reply C → CartState C → CartState C
  unfolding publish
  after_fetch (failed message) s = fail message s
  after_fetch (refused status error) s = fail_auth (handle_auth_error status error s)
  after_fetch (garbled message) s = fail message s
  after_fetch (accepted c) s = record (publish (some c) s) { loading = false }

  pub fetch_cart : Reply C → CartState C → CartState C
  unfolding after_fetch
  fetch_cart reply s =
      if truthy s.token then after_fetch reply (begin (get_cart (bearer s.token)) s) else s

  -- The body that the four operations share: a request, and a fetch of the cart if it succeeds.
  pub after_mutation : String → Ack → Reply C → CartState C → CartState C
  after_mutation message (failed m) reply s = fail m s
  after_mutation message (refused status error) reply s =
      fail_auth (handle_auth_error status error s)
  after_mutation message acked reply s =
      record (fetch_cart reply (record s { message = message })) { loading = false }

  pub update_quantity : ℕ → ℤ → Ack → Reply C → CartState C → CartState C
  unfolding after_mutation
  update_quantity product quantity ack reply s =
      after_mutation "Cantidad actualizada" ack reply
        (begin (put_quantity (bearer s.token) product none quantity) s)

  pub update_quantity_variant : ℕ → Option ℕ → ℤ → Ack → Reply C → CartState C → CartState C
  unfolding after_mutation
  update_quantity_variant product variant quantity ack reply s =
      after_mutation "Cantidad actualizada" ack reply
        (begin (put_quantity (bearer s.token) product variant quantity) s)

  pub remove_from_cart : ℕ → Option ℕ → Ack → Reply C → CartState C → CartState C
  unfolding after_mutation
  remove_from_cart product variant ack reply s =
      after_mutation "Producto eliminado del carrito" ack reply
        (begin (delete_item (bearer s.token) product variant) s)

  pub clear_cart : Ack → Reply C → CartState C → CartState C
  unfolding after_mutation
  clear_cart ack reply s =
      after_mutation "Carrito vaciado" ack reply (begin (delete_all (bearer s.token)) s)

  -- Another component mounts the hook: its cart starts as `__globalCart`.
  pub mount_other : CartState C → CartState C
  mount_other s = record s { others = s.global ∷ s.others }

-- The events of an instance's life: its own operations, with the replies that they get, another
-- instance that mounts, and another instance that publishes a cart.
pub data Event (C : Type 0) : Type 0 where
  fetches : Reply C → Event C
  updates : ℕ → ℤ → Ack → Reply C → Event C
  updates_variant : ℕ → Option ℕ → ℤ → Ack → Reply C → Event C
  removes : ℕ → Option ℕ → Ack → Reply C → Event C
  clears : Ack → Reply C → Event C
  sets : Option C → Event C
  other_mounts : Event C
  other_sets : Option C → Event C

module _ {C : Type 0} where
  pub step : Event C → CartState C → CartState C
  unfolding publish
  step (fetches reply) s = fetch_cart reply s
  step (updates p q ack reply) s = update_quantity p q ack reply s
  step (updates_variant p v q ack reply) s = update_quantity_variant p v q ack reply s
  step (removes p v ack reply) s = remove_from_cart p v ack reply s
  step (clears ack reply) s = clear_cart ack reply s
  step (sets c) s = set_cart c s
  step other_mounts s = mount_other s
  step (other_sets c) s = publish c s

  pub run : List (Event C) → CartState C → CartState C
  run [] s = s
  run (e ∷ es) s = run es (step e s)
