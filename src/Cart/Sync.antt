-- ===== src/Cart/Sync.antt =====
-- All instances of front/src/hooks/useCart.ts show the same cart.
use go_moda_mayor.Prelude.{
  ℕ, ◌≡◌, refl, Option, some, List, [], ◌∷◌, map, String, All, ◌==◌, truthy, inl, inr, Bool-cases,
}
use go_moda_mayor.Net.{Reply, Ack, failed, refused, garbled, accepted, acked}
use go_moda_mayor.Cart.{
  CartState, off_login, handle_auth_error, publish, set_cart, after_fetch, fetch_cart,
  after_mutation, update_quantity, update_quantity_variant, remove_from_cart, clear_cart,
  mount_other, Event, fetches, updates, updates_variant, removes, clears, sets, other_mounts,
  other_sets, step, run,
}

module _ {C : Type 0} where
  pub record InSync (s : CartState C) : Type 0 where
    pub own : s.cart ≡ s.global
    pub others : All (λ c. c ≡ s.global) s.others

  All-map-const : (c : Option C) (cs : List (Option C)) → All (λ d. d ≡ c) (map (λ _. c) cs)
  All-map-const c [] = tt
  All-map-const c (d ∷ ds) = (refl, All-map-const c ds)

  publish-InSync : (c : Option C) (s : CartState C) → InSync (publish c s)
  unfolding publish
  publish-InSync c s = record { own = refl; others = All-map-const c s.others }

  fail_auth-InSync :
      (status : ℕ) (error : Option String) (s : CartState C)
      → InSync s
      → InSync (handle_auth_error status error s).0
  unfolding handle_auth_error
  fail_auth-InSync status error s k = elim (Bool-cases (status == 401)) [
    | inl e ↦ elim (Bool-cases (off_login s)) [
      | inl f ↦ rw (e, f) (record { own = k.own; others = k.others })
      | inr f ↦ rw (e, f) (record { own = k.own; others = k.others })
    ]
    | inr e ↦ rw e k
  ]

  after_fetch-InSync : (reply : Reply C) (s : CartState C) → InSync s → InSync (after_fetch reply s)
  unfolding after_fetch
  after_fetch-InSync (failed message) s k = record { own = k.own; others = k.others }
  after_fetch-InSync (refused status error) s k =
      let h = fail_auth-InSync status error s k in record { own = h.own; others = h.others }
  after_fetch-InSync (garbled message) s k = record { own = k.own; others = k.others }
  after_fetch-InSync (accepted c) s k =
      let h = publish-InSync (some c) s in record { own = h.own; others = h.others }

  fetch_cart-InSync : (reply : Reply C) (s : CartState C) → InSync s → InSync (fetch_cart reply s)
  unfolding fetch_cart
  fetch_cart-InSync reply s k = elim (Bool-cases (truthy s.token)) [
    | inl e ↦ rw e (after_fetch-InSync reply _ (record { own = k.own; others = k.others }))
    | inr e ↦ rw e k
  ]

  after_mutation-InSync :
      (message : String) (ack : Ack) (reply : Reply C) (s : CartState C)
      → InSync s
      → InSync (after_mutation message ack reply s)
  unfolding after_mutation
  after_mutation-InSync message (failed m) reply s k = record { own = k.own; others = k.others }
  after_mutation-InSync message (refused status error) reply s k =
      let h = fail_auth-InSync status error s k in record { own = h.own; others = h.others }
  after_mutation-InSync message acked reply s k =
      let t : CartState C = record s { message = message } in
      let h = fetch_cart-InSync reply t (record { own = k.own; others = k.others }) in
      record { own = h.own; others = h.others }

  step-InSync : (e : Event C) (s : CartState C) → InSync s → InSync (step e s)
  unfolding step update_quantity update_quantity_variant remove_from_cart clear_cart set_cart
      mount_other
  step-InSync (fetches reply) s k = fetch_cart-InSync reply s k
  step-InSync (updates p q ack reply) s k =
      after_mutation-InSync _ ack reply _ (record { own = k.own; others = k.others })
  step-InSync (updates_variant p v q ack reply) s k =
      after_mutation-InSync _ ack reply _ (record { own = k.own; others = k.others })
  step-InSync (removes p v ack reply) s k =
      after_mutation-InSync _ ack reply _ (record { own = k.own; others = k.others })
  step-InSync (clears ack reply) s k =
      after_mutation-InSync _ ack reply _ (record { own = k.own; others = k.others })
  step-InSync (sets c) s k = publish-InSync c s
  step-InSync other_mounts s k = record { own = k.own; others = (refl, k.others) }
  step-InSync (other_sets c) s k = publish-InSync c s

  -- From a state in which every instance shows the shared cart, every run of operations, with
  -- whatever replies, and of mounting and publishing instances ends in such a state.
  pub run-InSync : (es : List (Event C)) (s : CartState C) → InSync s → InSync (run es s)
  unfolding run
  run-InSync [] s k = k
  run-InSync (e ∷ es) s k = run-InSync es (step e s) (step-InSync e s k)
