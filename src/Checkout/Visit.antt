-- ===== src/Checkout/Visit.antt =====
-- What front/src/app/checkout/page.tsx shows after its fetch, and what confirming the order leaves.
use go_moda_mayor.Prelude.{
  ℕ, suc, ◌+◌, ◌≡◌, refl, true, false, Option, none, some, List, [], ◌∷◌, ◌++◌, map, truthy, length,
  length-append, Bool-cases, inl, inr, ◌⊎◌, arith, String, Bool, ◌≢◌, ap,
}
use go_moda_mayor.Net.{Reply, Ack, failed, refused, garbled, accepted, acked}
use go_moda_mayor.Pricing.{Number}
use go_moda_mayor.Summary.{CartSummary, SummaryTier, NextTier}
use go_moda_mayor.Checkout.{
  CheckoutItem, CheckoutCart, CheckoutState, View, Line, line, failure, empty_cart, order,
  fetch_cart, after_cart, items_of, items_view, view, handle_confirm_order, after_confirm,
}

abbrev pub successes : List Ack → ℕ
successes [] = 0
successes (acked ∷ acks) = suc (successes acks)
successes (failed m ∷ acks) = successes acks
successes (refused status error ∷ acks) = successes acks

one_more :
    {A : Type 0} (k n : ℕ) (xs : List A) (x : A)
    → n ≡ length (xs ++ (x ∷ [])) + k
    → n ≡ length xs + suc k
one_more k n xs x e = omega (arith, e, length-append xs (x ∷ []))

module _ {F : Type 0} where
  -- Attempts to confirm, one after the other, with the server's answers.
  pub confirm_all : List Ack → CheckoutState F → CheckoutState F
  confirm_all [] s = s
  confirm_all (a ∷ acks) s = confirm_all acks (handle_confirm_order a s)

  pub record IsAttempted (acks : List Ack) (s t : CheckoutState F) : Type 0 where
    pub sends_each : length t.posted ≡ length s.posted + length acks
    pub answers_each : length t.alerts ≡ length s.alerts + length acks
    pub leaves_once : length t.pushed ≡ length s.pushed + successes acks
    pub keeps_cart : t.cart ≡ s.cart
    pub keeps_error : t.error ≡ s.error
    pub keeps_loading : t.loading ≡ s.loading

  attempt :
      (a : Ack) (acks : List Ack) (s t : CheckoutState F)
      → IsAttempted acks (handle_confirm_order a s) t
      → IsAttempted (a ∷ acks) s t
  unfolding handle_confirm_order after_confirm
  attempt (failed m) acks s t r = record {
    sends_each = one_more _ _ s.posted _ r.sends_each;
    answers_each = one_more _ _ s.alerts _ r.answers_each;
    leaves_once = r.leaves_once;
    keeps_cart = r.keeps_cart;
    keeps_error = r.keeps_error;
    keeps_loading = r.keeps_loading;
  }
  attempt (refused status error) acks s t r = record {
    sends_each = one_more _ _ s.posted _ r.sends_each;
    answers_each = one_more _ _ s.alerts _ r.answers_each;
    leaves_once = r.leaves_once;
    keeps_cart = r.keeps_cart;
    keeps_error = r.keeps_error;
    keeps_loading = r.keeps_loading;
  }
  attempt acked acks s t r = record {
    sends_each = one_more _ _ s.posted _ r.sends_each;
    answers_each = one_more _ _ s.alerts _ r.answers_each;
    leaves_once = one_more _ _ s.pushed _ r.leaves_once;
    keeps_cart = r.keeps_cart;
    keeps_error = r.keeps_error;
    keeps_loading = r.keeps_loading;
  }

  -- However the server answers the attempts to confirm, each sends one request and alerts one
  -- message, the page is left for the profile once for each that is accepted and for no other, and
  -- the cart, the error and the loading state stay as they were.
  pub confirm_all-IsAttempted :
      (acks : List Ack) (s : CheckoutState F) → IsAttempted acks s (confirm_all acks s)
  unfolding confirm_all
  confirm_all-IsAttempted [] s = record {
    sends_each = omega arith;
    answers_each = omega arith;
    leaves_once = omega arith;
    keeps_cart = refl;
    keeps_error = refl;
    keeps_loading = refl;
  }
  confirm_all-IsAttempted (a ∷ acks) s =
      attempt a acks s (confirm_all acks (handle_confirm_order a s))
        (confirm_all-IsAttempted acks (handle_confirm_order a s))

module _ {F : Type 0} where
  -- The page lists the items `items`, each in a line, in their order.
  pub record IsOrder (processing : Bool) (items : List (CheckoutItem F)) (v : View F) : Type 0 where
    pub lines : List (Line F)
    pub total : F
    pub tiers : Option (SummaryTier F × Option NextTier)
    pub shown : v ≡ order lines total tiers processing
    pub each : map (λ l. l.id) lines ≡ map (λ i. i.id) items

  -- What is shown for each reply to a fetch with a token.
  abbrev pub Shows : Reply (Option (CheckoutCart F)) → Bool → View F → Type 0
  Shows (accepted c) processing v =
      ((items_of c ≡ []) × (v ≡ empty_cart))
      ⊎ ((items_of c ≢ []) × IsOrder processing (items_of c) v)
  Shows (refused status error) processing v = v ≡ failure "Error al cargar el carrito"
  Shows (failed m) processing v =
      ((truthy (some m) ≡ true) × (v ≡ failure m)) ⊎ ((truthy (some m) ≡ false) × (v ≡ empty_cart))
  Shows (garbled m) processing v =
      ((truthy (some m) ≡ true) × (v ≡ failure m)) ⊎ ((truthy (some m) ≡ false) × (v ≡ empty_cart))

module _ {F : Type 0} ⦃n : Number F⦄ (zero : F) (number : ℕ → F) where
  lines_lem :
      (summary : Option (CartSummary F)) (items : List (CheckoutItem F))
      → map (λ l. l.id) (map (line zero number summary) items) ≡ map (λ i. i.id) items
  unfolding line
  lines_lem summary [] = refl
  lines_lem summary (i ∷ is) = ap (λ ids. i.id ∷ ids) (lines_lem summary is)

  items_view-Shows :
      (summary : Option (CartSummary F)) (processing : Bool) (items : List (CheckoutItem F))
      → let v = items_view zero number summary processing items in
        ((items ≡ []) × (v ≡ empty_cart)) ⊎ ((items ≢ []) × IsOrder processing items v)
  unfolding items_view
  items_view-Shows summary processing [] = inl (refl, refl)
  items_view-Shows summary processing (x ∷ xs) = inr (
    grind arith,
    record { lines = _; total = _; tiers = _; shown = refl; each = lines_lem summary (x ∷ xs) },
  )

  failure-Shows :
      (m : String) (summary : Option (CartSummary F)) (s : CheckoutState F)
      → s.cart ≡ none
      → let v = view zero number summary (record s { error = some m; loading = false }) in
        ((truthy (some m) ≡ true) × (v ≡ failure m))
        ⊎ ((truthy (some m) ≡ false) × (v ≡ empty_cart))
  unfolding view items_view
  failure-Shows m summary s no_cart = elim (Bool-cases (truthy (some m))) [
    | inl e ↦ rw e (inl (refl, refl))
    | inr e ↦ rw e (rw no_cart (inr (refl, refl)))
  ]

  after_cart-Shows :
      (reply : Reply (Option (CheckoutCart F))) (summary : Option (CartSummary F))
      → (s : CheckoutState F) → s.cart ≡ none
      → s.error ≡ none
      → let t = after_cart reply s in
        Shows reply s.processing (view zero number summary t) × (t.pushed ≡ s.pushed)
  unfolding after_cart view items_view
  after_cart-Shows (accepted c) summary s no_cart no_error =
      (simp no_error (items_view-Shows summary s.processing (items_of c)), refl)
  after_cart-Shows (refused status error) summary s no_cart no_error = (refl, refl)
  after_cart-Shows (failed m) summary s no_cart no_error = (failure-Shows m summary s no_cart, refl)
  after_cart-Shows (garbled m) summary s no_cart no_error =
      (failure-Shows m summary s no_cart, refl)

  -- A page that has just opened, without a cart or an error, shows after its fetch with a token: the
  -- items that the server sent, a line for each in order, or that the cart is empty; and after a
  -- failure its message, or the empty cart if the message is empty. Without a token it goes to the
  -- login, and shows the empty cart meanwhile.
  pub fetch_cart-Shows :
      (reply : Reply (Option (CheckoutCart F))) (summary : Option (CartSummary F))
      → (s : CheckoutState F) → s.cart ≡ none
      → s.error ≡ none
      → let t = fetch_cart reply s in
        let v = view zero number summary t in
        ((truthy s.token ≡ true) × Shows reply s.processing v × (t.pushed ≡ s.pushed))
        ⊎ ((truthy s.token ≡ false) × (v ≡ empty_cart) × (t.pushed ≡ s.pushed ++ ("/login" ∷ [])))
  unfolding fetch_cart view
  fetch_cart-Shows reply summary s no_cart no_error = elim (Bool-cases (truthy s.token)) [
    | inl e ↦
        let (shows, same) = after_cart-Shows reply summary s no_cart no_error in
        simp e (inl (refl, shows, same))
    | inr e ↦ simp (e, no_cart, no_error) (inr (refl, refl, refl))
  ]
