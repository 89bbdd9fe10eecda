-- ===== src/SellerCarts/Recheck/Alerts.antt =====
-- Of which items the second check of front/src/app/vendedora/carritos/page.tsx warns.
use go_moda_mayor.Prelude.{
  ℕ, ◌≡◌, refl, Bool, true, false, not, ◌&&◌, ◌||◌, Option, none, some, List, [], ◌∷◌, String,
  str_eq, any, find, is_some, arith,
}
use go_moda_mayor.Prelude.Int.{ℤ}
use go_moda_mayor.Net.{Reply, failed, refused, garbled, accepted}
use go_moda_mayor.SellerCarts.Status.{is_success}
use go_moda_mayor.SellerCarts.Items.{CartItem, StockRow, StockAnswer, stocks_of, has_enough}
use go_moda_mayor.SellerCarts.Recheck.{
  Letters, Short, RecheckPage, alert_key, confirmed_location, is_at, Found, add_short, check_row,
  check_item, check_items, report, recheck,
}

-- There is no such row, or it has not enough.
abbrev pub lacks : ℕ → Option StockRow → Bool
lacks quantity none = true
lacks quantity (some r) = not (has_enough quantity r)

-- The server answers, and the first row of the item's place has not enough.
abbrev pub is_short : Option String → CartItem → Reply StockAnswer → Bool
is_short selected it (failed m) = false
is_short selected it (refused status e) = false
is_short selected it (garbled m) = false
is_short selected it (accepted a) =
    lacks it.quantity (find (is_at (confirmed_location selected it)) (stocks_of a))

abbrev is_empty : List Short → Bool
is_empty [] = true
is_empty (x ∷ xs) = false

-- What is collected when `more` tells whether some item is short, and `at` whether one of a key is.
abbrev Collects : Bool → (String → Bool) → Found → Found → Type 0
Collects more at found t =
    (is_empty t.0 ≡ (not more && is_empty found.0))
    × ((k : String) → is_some (t.1 k) ≡ (at k || is_some (found.1 k)))

add_short-Collects :
    (it : CartItem) (n : ℤ) (place : String) (found : Found)
    → Collects true (λ k. str_eq k (alert_key it)) found (add_short it n place found)
unfolding add_short
add_short-Collects it n place (xs, alerts) = (refl, λ k. ground arith)

check_row-Collects :
    (it : CartItem) (place : String) (o : Option StockRow) (found : Found)
    → Collects
        (lacks it.quantity o)
        (λ k. str_eq k (alert_key it) && lacks it.quantity o)
        found
        (check_row it place o found)
unfolding check_row has_enough
check_row-Collects it place none found = (refl, λ k. ground arith)
check_row-Collects it place (some r) (xs, alerts) = (ground arith, λ k. ground arith)

module _ (selected : Option String) where
  check_item-Collects :
      (it : CartItem) (reply : Reply StockAnswer) (found : Found)
      → Collects
          (is_short selected it reply)
          (λ k. str_eq k (alert_key it) && is_short selected it reply)
          found
          (check_item selected it reply found)
  unfolding check_item
  check_item-Collects it (failed m) found = (refl, λ k. ground arith)
  check_item-Collects it (refused status e) found = (refl, λ k. ground arith)
  check_item-Collects it (garbled m) found = (refl, λ k. ground arith)
  check_item-Collects it (accepted a) found =
      check_row-Collects it (confirmed_location selected it)
        (find (is_at (confirmed_location selected it)) (stocks_of a)) found

  module _ (stock : ℕ → Reply StockAnswer) where
    abbrev pub short : CartItem → Bool
    short it = is_short selected it (stock it.variant_id)

    check_items-Collects :
        (items : List CartItem) (found : Found)
        → Collects
            (any short items)
            (λ k. any (λ it. str_eq k (alert_key it) && short it) items)
            found
            (check_items selected stock items found)
    unfolding check_items
    check_items-Collects [] found = (refl, λ k. refl)
    check_items-Collects (it ∷ items) found =
        let one = check_item-Collects it (stock it.variant_id) found in
        let rest =
          check_items-Collects items (check_item selected it (stock it.variant_id) found) in
        (ground (arith, one.0, rest.0), λ k. ground (arith, one.1 k, rest.1 k))

report_lem :
    (l : Letters) (found : Found) (s : RecheckPage)
    → let t = report l found s in
      (is_success t.page.modal ≡ is_empty found.0)
      × ((k : String)
          → is_some (t.confirmed_stock_alerts k) ≡ (not (is_empty found.0) && is_some (found.1 k)))
unfolding report
report_lem l ([], alerts) s = (refl, λ k. refl)
report_lem l (x ∷ xs, alerts) s = (refl, λ k. refl)

any-key :
    (k : String) (p : CartItem → Bool) (items : List CartItem)
    → any p items ≡ false
    → any (λ it. str_eq k (alert_key it) && p it) items ≡ false
any-key k p [] h = refl
any-key k p (it ∷ items) h = ground (arith, any-key k p items)

-- The second check says that all is well just if no confirmed item is short, where an item is short if
-- the server answers for its variant, and it has no stock at the item's place, or not enough there
-- without what is reserved; and it leaves an alert at just the keys of the items that are short. So an
-- item for which the server does not answer is never short.
pub recheck_lem :
    (l : Letters) (cart_id : ℕ) (stock : ℕ → Reply StockAnswer) (items : List CartItem)
    (s : RecheckPage)
    → let short = short (s.selected_location_map cart_id) stock in
      let t = recheck l cart_id stock items s in
      (is_success t.page.modal ≡ not (any short items))
      × ((k : String)
          → is_some (t.confirmed_stock_alerts k)
            ≡ any (λ it. str_eq k (alert_key it) && short it) items)
unfolding recheck
recheck_lem l cart_id stock items s =
    let selected = s.selected_location_map cart_id in
    let found = check_items selected stock items ([], λ k. none) in
    let c = check_items-Collects selected stock items ([], λ k. none) in
    let r = report_lem l found s in
    (
      ground (arith, c.0, r.0),
      λ k. ground (arith, c.0, c.1 k, r.1 k, any-key k (short selected stock) items),
    )
