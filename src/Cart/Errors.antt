-- ===== src/Cart/Errors.antt =====
-- How the four operations of front/src/hooks/useCart.ts that change the cart end, on every reply.
use go_moda_mayor.Prelude.{
  ℕ, ◌+◌, ◌≡◌, refl, true, false, Option, some, none, [], ◌∷◌, ◌++◌, String, ◌==◌, truthy, text_or,
  if◌then◌else◌, inl, inr, Bool-cases,
}
use go_moda_mayor.Prelude.Int.{ℤ}
use go_moda_mayor.Net.{Reply, Ack, failed, refused, garbled, accepted, acked, bearer}
use go_moda_mayor.Cart.{
  CartState, Request, get_cart, put_quantity, delete_item, delete_all, off_login, handle_auth_error,
  begin, after_fetch, fetch_cart, after_mutation, update_quantity, update_quantity_variant,
  remove_from_cart, clear_cart, publish,
}

-- One of the four operations, with its arguments.
pub data Mutation : Type 0 where
  update : ℕ → ℤ → Mutation
  update_variant : ℕ → Option ℕ → ℤ → Mutation
  remove : ℕ → Option ℕ → Mutation
  clear : Mutation

-- The request that it sends.
abbrev pub request_of : Mutation → Option String → Request
request_of (update p q) token = put_quantity (bearer token) p none q
request_of (update_variant p v q) token = put_quantity (bearer token) p v q
request_of (remove p v) token = delete_item (bearer token) p v
request_of clear token = delete_all (bearer token)

abbrev note_of : Mutation → String
note_of (update p q) = "Cantidad actualizada"
note_of (update_variant p v q) = "Cantidad actualizada"
note_of (remove p v) = "Producto eliminado del carrito"
note_of clear = "Carrito vaciado"

module _ {C : Type 0} where
  pub act : Mutation → Ack → Reply C → CartState C → CartState C
  act (update p q) ack reply s = update_quantity p q ack reply s
  act (update_variant p v q) ack reply s = update_quantity_variant p v q ack reply s
  act (remove p v) ack reply s = remove_from_cart p v ack reply s
  act clear ack reply s = clear_cart ack reply s

  act-eq :
      (m : Mutation) (ack : Ack) (reply : Reply C) (s : CartState C)
      → act m ack reply s ≡ after_mutation (note_of m) ack reply (begin (request_of m s.token) s)
  unfolding act update_quantity update_quantity_variant remove_from_cart clear_cart
  act-eq (update p q) ack reply s = refl
  act-eq (update_variant p v q) ack reply s = refl
  act-eq (remove p v) ack reply s = refl
  act-eq clear ack reply s = refl

  -- A state that shows the same carts everywhere.
  pub record SameCarts (s t : CartState C) : Type 0 where
    pub own : t.cart ≡ s.cart
    pub shared : t.global ≡ s.global
    pub others : t.others ≡ s.others

  -- If the session has a token and the server accepts the change and sends the new cart `c`, then
  -- the instance and the shared store show `c`, there is no error, nothing is loading, and the
  -- requests sent are the change and then the fetch.
  pub act-accepted :
      (m : Mutation) (c : C) (s : CartState C)
      → truthy s.token ≡ true
      → let t = act m acked (accepted c) s in
        (t.cart ≡ some c)
        × (t.global ≡ some c)
        × (t.error ≡ "")
        × (t.loading ≡ false)
        × (t.sent ≡ (s.sent ++ request_of m s.token ∷ []) ++ get_cart (bearer s.token) ∷ [])
  act-accepted m c s h =
      rw (act-eq m acked (accepted c) s) (
        unfold after_mutation fetch_cart after_fetch publish in rw h (refl, refl, refl, refl, refl))

  handle_auth_error-message :
      (status : ℕ) (error : Option String) (s : CartState C)
      → (handle_auth_error status error s).0.message ≡ s.message
  unfolding handle_auth_error
  handle_auth_error-message status error s = elim (Bool-cases (status == 401)) [
    | inl e ↦ elim (Bool-cases (off_login s)) [ inl f ↦ rw (e, f) | inr f ↦ rw (e, f) ]
    | inr e ↦ rw e
  ]

  after_fetch-message :
      (reply : Reply C) (s : CartState C) → (after_fetch reply s).message ≡ s.message
  unfolding after_fetch publish
  after_fetch-message (failed m) s = refl
  after_fetch-message (refused status error) s = handle_auth_error-message status error s
  after_fetch-message (garbled m) s = refl
  after_fetch-message (accepted c) s = refl

  -- The fetch clears the message before it waits: with a token, no operation that the server accepts
  -- leaves its success message, whatever the fetch gets.
  pub act-message :
      (m : Mutation) (reply : Reply C) (s : CartState C)
      → truthy s.token ≡ true
      → (act m acked reply s).message ≡ ""
  act-message m reply s h =
      rw (act-eq m acked reply s)
        (unfold after_mutation fetch_cart in rw h (after_fetch-message reply _))

  off_login-begin : (r : Request) (s : CartState C) → off_login (begin r s) ≡ off_login s
  unfolding off_login
  off_login-begin r s = refl

  -- `handleAuthError` on a 401, with what the callers do with its message.
  handle_auth_error-401 :
      (error : Option String) (s : CartState C)
      → let t = (handle_auth_error 401 error s).0 in
        (t.token ≡ none)
        × SameCarts s t
        × (t.sent ≡ s.sent)
        × (t.redirects ≡ (if off_login s then s.redirects + 1 else s.redirects))
  unfolding handle_auth_error
  handle_auth_error-401 error s = elim (Bool-cases (off_login s)) [
    | inl f ↦ rw f (refl, record { own = refl; shared = refl; others = refl }, refl, refl)
    | inr f ↦ rw f (refl, record { own = refl; shared = refl; others = refl }, refl, refl)
  ]

  fetch_cart-none : (reply : Reply C) (s : CartState C) → s.token ≡ none → fetch_cart reply s ≡ s
  unfolding fetch_cart
  fetch_cart-none reply s e = simp e

  -- An answer 401 removes the token, changes no cart and sends nothing more; a redirection to the
  -- login is scheduled unless the page is the login or the registration; and a later fetch of the
  -- cart does nothing, so that there is no loop.
  pub act-unauthorized :
      (m : Mutation) (error : Option String) (reply later : Reply C) (s : CartState C)
      → let t = act m (refused 401 error) reply s in
        (t.token ≡ none)
        × SameCarts s t
        × (t.loading ≡ false)
        × (t.sent ≡ s.sent ++ request_of m s.token ∷ [])
        × (t.redirects ≡ (if off_login s then s.redirects + 1 else s.redirects))
        × (fetch_cart later t ≡ t)
  act-unauthorized m error reply later s =
      let b : CartState C = begin (request_of m s.token) s in
      let (token, same, sent, redirects) = handle_auth_error-401 error b in
      rw (act-eq m (Ack.refused 401 error) reply s) (
        unfold after_mutation in
        (
          token,
          record { own = same.own; shared = same.shared; others = same.others },
          refl,
          sent,
          rw (← off_login-begin (request_of m s.token) s) redirects,
          fetch_cart-none later _ token,
        ))

  -- Any other failure keeps the token and every cart, sends nothing more and shows the error.
  pub act-failed :
      (m : Mutation) (status : ℕ) (error : Option String) (reply : Reply C) (s : CartState C)
      → (status == 401) ≡ false
      → let t = act m (refused status error) reply s in
        (t.token ≡ s.token)
        × SameCarts s t
        × (t.loading ≡ false)
        × (t.error ≡ text_or error "Error en la operación")
        × (t.sent ≡ s.sent ++ request_of m s.token ∷ [])
  act-failed m status error reply s h = rw (act-eq m (Ack.refused status error) reply s) (
      unfold after_mutation handle_auth_error in
      rw h (refl, record { own = refl; shared = refl; others = refl }, refl, refl, refl))
