-- ===== src/GuestCart/Migrate/Report.antt =====
-- What the migration of front/src/utils/guestCart.ts reports, sends and leaves.
use mathlib.Core.List.{append-nil, append_assoc}
use go_moda_mayor.Prelude.{
  ℕ, ◌+◌, ◌≡◌, refl, sym, ◌∙◌, List, [], ◌∷◌, ◌++◌, map, String, arith, inl, inr, Bool-cases,
  length, length-append,
}
use go_moda_mayor.GuestCart.{Store, Browser, get_guest_cart, clear_guest_cart}
use go_moda_mayor.GuestCart.Items.{GuestCartItem}
use go_moda_mayor.GuestCart.Migrate.{
  AddReply, added, refused, no_connection, AddRequest, add_request, MigrationResult, outcome,
  migrate_items, finish, migrate_guest_cart_to_server,
}

abbrev pub is_failure : AddReply → ℕ
is_failure added = 0
is_failure (refused error) = 1
is_failure no_connection = 1

-- The requests among the next `n`, from the k-th on, that the server did not accept.
abbrev pub failures : {F : Type 0} → (ℕ → AddReply) → ℕ → List (GuestCartItem F) → ℕ
failures reply k [] = 0
failures reply k (i ∷ is) = is_failure (reply k) + failures reply (k + 1) is

module _ {F : Type 0} where
  outcome_lem :
      (i : GuestCartItem F) (r : AddReply)
      → (length (outcome i r).0 + length (outcome i r).1 ≡ 1)
        × (length (outcome i r).1 ≡ is_failure r)
  unfolding outcome
  outcome_lem i added = (refl, refl)
  outcome_lem i (refused error) = (refl, refl)
  outcome_lem i no_connection = (refl, refl)

  migrate_items-length :
      (token : String) (reply : ℕ → AddReply) (k : ℕ) (is : List (GuestCartItem F))
      (names errors : List String) (sent : List AddRequest)
      → let done = migrate_items token reply k is names errors sent in
        (length done.0 + length done.1 ≡ length names + length errors + length is)
        × (length done.1 ≡ length errors + failures reply k is)
  unfolding migrate_items
  migrate_items-length token reply k [] names errors sent = omega arith
  migrate_items-length token reply k (i ∷ is) names errors sent =
      let (new, bad) = outcome i (reply k) in
      omega (
        arith,
        migrate_items-length token reply (k + 1) is (names ++ new) (errors ++ bad)
            (sent ++ add_request token i ∷ []),
        length-append names new,
        length-append errors bad,
        outcome_lem i (reply k),
      )

  migrate_items-sent :
      (token : String) (reply : ℕ → AddReply) (k : ℕ) (is : List (GuestCartItem F))
      (names errors : List String) (sent : List AddRequest)
      → (migrate_items token reply k is names errors sent).2 ≡ sent ++ map (add_request token) is
  unfolding migrate_items
  migrate_items-sent token reply k [] names errors sent = sym (append-nil sent)
  migrate_items-sent token reply k (i ∷ is) names errors sent =
      migrate_items-sent token reply (k + 1) is _ _ (sent ++ add_request token i ∷ [])
      ∙ append_assoc sent (add_request token i ∷ []) (map (add_request token) is)

-- What the migration reports and sends, of a cart `is`.
pub record IsMigrated {F : Type 0} (token : String) (reply : ℕ → AddReply)
    (is : List (GuestCartItem F)) (r : MigrationResult) (sent : List AddRequest) : Type 0 where
  pub total : r.total_items ≡ length is
  pub counted : r.success_count + r.error_count ≡ r.total_items
  pub failed : r.error_count ≡ failures reply 0 is
  pub named : length r.items_added ≡ r.success_count
  pub explained : length r.errors ≡ r.error_count
  pub posted : sent ≡ map (add_request token) is

module _ {F T : Type 0} ⦃s : Store F T⦄ where
  finish-IsMigrated :
      (token : String) (reply : ℕ → AddReply) (is : List (GuestCartItem F)) (b : Browser F T)
      → let done = finish token reply is b in IsMigrated token reply is done.0 done.1
  unfolding finish
  finish-IsMigrated token reply [] b = ground arith
  finish-IsMigrated token reply (i ∷ is) b =
      let (all, bad) = migrate_items-length token reply 0 (i ∷ is) [] [] [] in
      record {
        total = refl;
        counted = omega (arith, all);
        failed = omega (arith, bad);
        named = refl;
        explained = refl;
        posted = migrate_items-sent token reply 0 (i ∷ is) [] [] [];
      }

  -- However the server answers, each item of the cart is posted once, in order and with the token;
  -- every item is counted either as a success or as an error, the errors being the requests that
  -- were not accepted, and each has one line in its list.
  pub migrate_guest_cart_to_server-IsMigrated :
      (token : String) (reply : ℕ → AddReply) (b : Browser F T)
      → let done = migrate_guest_cart_to_server token reply b in
        IsMigrated token reply (get_guest_cart b) done.0 done.1
  unfolding migrate_guest_cart_to_server
  migrate_guest_cart_to_server-IsMigrated token reply b =
      finish-IsMigrated token reply (get_guest_cart b) b

  clear_guest_cart-empty : (b : Browser F T) → get_guest_cart (clear_guest_cart b) ≡ []
  unfolding get_guest_cart clear_guest_cart
  clear_guest_cart-empty b = elim (Bool-cases b.has_window) [ inl w ↦ rw w | inr w ↦ rw w ]

  finish-empty :
      (token : String) (reply : ℕ → AddReply) (is : List (GuestCartItem F)) (b : Browser F T)
      → get_guest_cart b ≡ is
      → get_guest_cart (finish token reply is b).2 ≡ []
  unfolding finish
  finish-empty token reply [] b e = e
  finish-empty token reply (i ∷ is) b e = clear_guest_cart-empty b

  -- The visitor's cart is empty after the migration, also of the items that the server refused or
  -- that could not be sent.
  pub get_guest_cart-migrate_guest_cart_to_server :
      (token : String) (reply : ℕ → AddReply) (b : Browser F T)
      → get_guest_cart (migrate_guest_cart_to_server token reply b).2 ≡ []
  unfolding migrate_guest_cart_to_server
  get_guest_cart-migrate_guest_cart_to_server token reply b =
      finish-empty token reply (get_guest_cart b) b refl
