-- ===== src/SellerCarts/Pending/Covered.antt =====
-- What front/src/app/vendedora/carritos/page.tsx keeps of the places of pending items.
use text.Mathlib.TextEquality.{eq_iff}
use mathlib.Core.Path.{subst}
use go_moda_mayor.Prelude.{
  ℕ, zero, suc, ◌≡◌, refl, sym, Bool, true, false, ◌&&◌, inl, inr, Option, none, some, List, [],
  ◌∷◌, String, str_eq, get_or, get_elem?, any, Bool-cases, if_elim, arith, All,
}
use go_moda_mayor.Net.{Reply, Ack, failed, refused, garbled, accepted, acked}
use go_moda_mayor.SellerCarts.{SellerCart}
use go_moda_mayor.SellerCarts.Items.{CartItem, StockRow, StockAnswer, lower_first, has_enough}
use go_moda_mayor.SellerCarts.Pending.{
  PendingPage, set_at, item_key, is_listed, after_places, see_places, choose_row, choose, hide,
  cancel, fetched, forget, after_confirm, confirm_at, confirm_stock, after_remove, reject,
  PendingAction, see, choice, cancelled, confirmation, rejection, act, act_all,
}

abbrev is_at : String → Option String → Bool
is_at place none = false
is_at place (some p) = str_eq p place

-- Some row is of the place and has enough.
abbrev pub covers : ℕ → String → List StockRow → Bool
covers quantity place rows =
    any (λ r. is_at place (lower_first r.location) && has_enough quantity r) rows

covers-get_elem? :
    (quantity : ℕ) (place : String) (rows : List StockRow) (i : ℕ) (r : StockRow)
    → get_elem? rows i ≡ some r
    → has_enough quantity r ≡ true
    → lower_first r.location ≡ some place
    → covers quantity place rows ≡ true
covers-get_elem? quantity place [] i r e h k = cc
covers-get_elem? quantity place (x ∷ rows) zero r e h k =
    let same : x ≡ r = cc in rw (same, h, k) (ground (arith, eq_iff place place))
covers-get_elem? quantity place (x ∷ rows) (suc i) r e h k =
    ground (arith, covers-get_elem? quantity place rows i r e h k)

abbrev pub places : String → PendingPage → List StockRow
places key s = get_or (s.pending_item_locations key) []

-- What holds of a key and of its entries: a place is chosen only while the places are shown, and it is
-- one of them that has enough.
abbrev pub Fine : ℕ → Option String → Bool → Option (List StockRow) → Type 0
Fine quantity selected shown rows =
    (place : String)
    → selected ≡ some place
    → (shown ≡ true) × (covers quantity place (get_or rows []) ≡ true)

pub none-Fine :
    (quantity : ℕ) (shown : Bool) (rows : Option (List StockRow)) → Fine quantity none shown rows
none-Fine quantity shown rows place e = cc

-- To hold at all keys: at `key`, and at all others.
by_key {ℓ} :
    (P : String → Type ℓ) (key : String)
    → P key
    → ((k : String) → str_eq k key ≡ false → P k)
    → (k : String) → P k
by_key P key h other k = elim (Bool-cases (str_eq k key)) [
  | inl e ↦ subst P (sym ((eq_iff k key).0 e)) h
  | inr e ↦ other k e
]

str_eq_self : (s : String) → str_eq s s ≡ true
str_eq_self s = (eq_iff s s).1 refl

-- `quantity_of` gives the quantities of the items by their keys.
module _ (quantity_of : String → ℕ) where
  abbrev pub CoveredAt : PendingPage → String → Type 0
  CoveredAt s key =
      Fine (quantity_of key) (s.selected_pending_locations key) (s.showing_locations key)
        (s.pending_item_locations key)

  abbrev pub Covered : PendingPage → Type 0
  Covered s = (key : String) → CoveredAt s key

  module _ (cart_id : ℕ) (it : CartItem) where
    abbrev key : String
    key = item_key cart_id it

    after_places-Covered :
        (reply : Reply StockAnswer) (s : PendingPage)
        → s.showing_locations key ≡ false
        → Covered s
        → Covered (after_places cart_id it reply s)
    unfolding after_places
    after_places-Covered (failed m) s shut h = h
    after_places-Covered (refused status e) s shut h = h
    after_places-Covered (garbled m) s shut h = h
    after_places-Covered (accepted a) s shut h =
        by_key (CoveredAt (after_places cart_id it (accepted a) s)) key
          (λ place e. absurd (let shown = (h key place e).0 in cc)) (λ k e. rw e (h k))

    hide-Covered : (s : PendingPage) → Covered s → Covered (hide cart_id it s)
    unfolding hide
    hide-Covered s h =
        by_key (CoveredAt (hide cart_id it s)) key
          (rw (str_eq_self key) (none-Fine (quantity_of key) false (s.pending_item_locations key)))
          (λ k e. rw e (h k))

    forget-Covered : (s : PendingPage) → Covered s → Covered (forget cart_id it s)
    unfolding hide forget
    forget-Covered s h =
        by_key (CoveredAt (forget cart_id it s)) key
          (rw (str_eq_self key) (none-Fine (quantity_of key) false none)) (λ k e. rw e (h k))

    choose_row-Covered :
        (i : ℕ) (o : Option StockRow) (s : PendingPage)
        → quantity_of key ≡ it.quantity
        → s.showing_locations key ≡ true
        → get_elem? (get_or (s.pending_item_locations key) []) i ≡ o
        → Covered s
        → Covered (choose_row cart_id it o s)
    unfolding choose_row
    choose_row-Covered i none s q shown e h = h
    choose_row-Covered i (some r) s q shown e h =
        if_elim Covered (has_enough it.quantity r) _ s
          (λ enough.
            by_key
              (CoveredAt (record s {
                selected_pending_locations =
                    set_at key (lower_first r.location) s.selected_pending_locations;
              }))
              key
              (λ place c. (
                shown,
                covers-get_elem? (quantity_of key) place (get_or (s.pending_item_locations key) [])
                    i r e (rw q enough) (rw (str_eq_self key) at c),
              ))
              (λ k e. rw e (h k)))
          (λ _. h)

    after_confirm-Covered :
        (place : String) (reply : Ack) (carts : Reply (Option (List SellerCart))) (s : PendingPage)
        → Covered s
        → Covered (after_confirm cart_id it place reply carts s)
    unfolding after_confirm fetched forget hide
    after_confirm-Covered place (failed m) carts s h = h
    after_confirm-Covered place (refused status e) carts s h = h
    after_confirm-Covered place acked carts s h = forget-Covered s h

    confirm_at-Covered :
        (o : Option String) (reply : Ack) (carts : Reply (Option (List SellerCart)))
        (s : PendingPage)
        → Covered s
        → Covered (confirm_at cart_id it o reply carts s)
    unfolding confirm_at
    confirm_at-Covered none reply carts s h = h
    confirm_at-Covered (some place) reply carts s h =
        if_elim Covered (str_eq place "") s _ (λ _. h)
          (λ _. after_confirm-Covered place reply carts _ h)

    after_remove-Covered :
        (reply : Ack) (carts : Reply (Option (List SellerCart))) (s : PendingPage)
        → Covered s
        → Covered (after_remove cart_id it reply carts s)
    unfolding after_remove fetched
    after_remove-Covered (failed m) carts s h = h
    after_remove-Covered (refused status e) carts s h = h
    after_remove-Covered acked carts s h = h

    act-Covered :
        (a : PendingAction) (s : PendingPage)
        → quantity_of key ≡ it.quantity
        → Covered s
        → Covered (act cart_id it a s)
    unfolding act see_places choose cancel confirm_stock reject
    act-Covered (see reply) s q h =
        if_elim Covered (s.showing_locations key) s _ (λ _. h)
          (λ shut. after_places-Covered reply s shut h)
    act-Covered (choice i) s q h =
        if_elim Covered (s.showing_locations key) _ s
          (λ shown. choose_row-Covered i _ s q shown refl h) (λ _. h)
    act-Covered cancelled s q h =
        if_elim Covered (s.showing_locations key) _ s (λ _. hide-Covered s h) (λ _. h)
    act-Covered (confirmation reply carts) s q h =
        if_elim Covered (s.showing_locations key && is_listed (s.pending_item_locations key)) _ s
          (λ _. confirm_at-Covered (s.selected_pending_locations key) reply carts s h) (λ _. h)
    act-Covered (rejection true reply carts) s q h =
        if_elim Covered (s.showing_locations key) s _ (λ _. h)
          (λ _. after_remove-Covered reply carts _ h)
    act-Covered (rejection false reply carts) s q h =
        if_elim Covered (s.showing_locations key) s _ (λ _. h) (λ _. h)

  -- The item's quantity is that of its key.
  abbrev pub HasQuantity : ℕ × CartItem × PendingAction → Type 0
  HasQuantity (cart_id, it, a) = quantity_of (item_key cart_id it) ≡ it.quantity

  pub act_all-Covered :
      (actions : List (ℕ × CartItem × PendingAction)) (s : PendingPage)
      → All HasQuantity actions
      → Covered s
      → Covered (act_all actions s)
  unfolding act_all
  act_all-Covered [] s qs h = h
  act_all-Covered ((cart_id, it, a) ∷ rest) s (q, qs) h =
      act_all-Covered rest _ qs (act-Covered cart_id it a s q h)
