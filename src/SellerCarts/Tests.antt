-- ===== src/SellerCarts/Tests.antt =====
-- Runs of front/src/app/vendedora/carritos/page.tsx, and its theorems at concrete inputs. Prices are
-- whole cents.
use go_moda_mayor.Prelude.{
  ℕ, ◌≡◌, refl, true, false, not, ◌&&◌, none, some, is_some, List, [], ◌∷◌, ◌++◌, String, str_eq,
  find, any, if◌then◌else◌,
}
use go_moda_mayor.Prelude.Decimal.{show_ℕ}
use go_moda_mayor.Prelude.Int.{pos, ◌-ℤ◌}
use go_moda_mayor.Prelude.Sort.{sort_by}
use go_moda_mayor.Cents.{cents}
use go_moda_mayor.Net.{Reply, failed, refused, accepted, acked}
use go_moda_mayor.Pricing.{PriceTier, FormulaType, multiplier, flat_amount, get_applicable_tier}
use go_moda_mayor.Pricing.Sort.{lowest}
use go_moda_mayor.Pricing.Select.{get_applicable_tier-eq-lowest}
use go_moda_mayor.SellerCarts.{
  SellerCart, SellerPage, applicable_tier, set_status, order_of, is_cart,
}
use go_moda_mayor.SellerCarts.Price.{applicable_tier-get_applicable_tier}
use go_moda_mayor.SellerCarts.Status.{
  is_success, is_acked, with_order, with_cart, order_accepts, set_status_lem,
}
use go_moda_mayor.SellerCarts.Items.{
  CartItem, StockRow, StockAnswer, rows, available, has_enough, stocks_of,
}
use go_moda_mayor.SellerCarts.Pending.{
  PendingPage, PendingAction, see, choice, reserve, item_key, see_places, choose, act, act_all,
  confirm_stock,
}
use go_moda_mayor.SellerCarts.Pending.Reserved.{Reserves, confirm_stock-act_all}
use go_moda_mayor.SellerCarts.Recheck.{Letters, RecheckPage, recheck, alert_key}
use go_moda_mayor.SellerCarts.Recheck.Alerts.{short, recheck_lem}
use go_moda_mayor.SellerCarts.Hint.{TierHint, tier_hint, total_quantity}
use go_moda_mayor.SellerCarts.Hint.Next.{IsTop, tier_hint-IsTop}
use go_moda_mayor.SellerCarts.Flow.{Click}
use go_moda_mayor.SellerCarts.Choice.{ChoicePage, click_add, click_product, sent_location}
use go_moda_mayor.SellerCarts.Choice.Left.{click_add-click_product}

abbrev tier : ℕ → FormulaType → PriceTier ℕ
tier n formula = record {
  id = n;
  name = "t";
  display_name = "T";
  formula_type = formula;
  multiplier = 3;
  percentage = 50;
  flat_amount = 100;
  min_quantity = n;
  order_index = n;
  active = true;
  description = "";
  is_default = false;
  show_in_public = true;
  color_code = "";
}

abbrev tiers : List (PriceTier ℕ)
tiers = tier 6 flat_amount ∷ tier 9 multiplier ∷ []

applicable_tier-get_applicable_tier_example : applicable_tier tiers 7 ≡ get_applicable_tier tiers 7
applicable_tier-get_applicable_tier_example = applicable_tier-get_applicable_tier tiers 7

chosen : get_applicable_tier tiers 7 ≡ some (tier 6 flat_amount)
unfolding lowest
chosen = get_applicable_tier-eq-lowest tiers 7

abbrev cart : ℕ → String → SellerCart
cart n name = record {
  id = record { upper = some n; lower = none };
  order_id = some 5;
  estado = some "pendiente";
  current_tier = some (some name, none);
}

abbrev page : SellerPage
page = record {
  carts = cart 1 "Minorista" ∷ cart 2 "Mayorista" ∷ [];
  loading = false;
  error = none;
  previous_tier_name = none;
  tier_just_changed = false;
  modal = none;
  sent = [];
}

set_status_lem_example :
    let t = set_status "listo_para_pago" (failed "") 2 acked (refused 500 none) page in
    let o = order_of (find (is_cart 2) page.carts) in
    let ready = str_eq "listo_para_pago" "listo_para_pago" in
    (t.sent ≡ (
      if ready
      then (if is_acked acked
          then with_order "listo_para_pago" o (with_cart "listo_para_pago" 2 page.sent)
          else with_cart "listo_para_pago" 2 page.sent)
      else with_order "listo_para_pago" o page.sent))
    × (is_success t.modal ≡ (
        if ready
        then is_acked acked && order_accepts "listo_para_pago" o (refused 500 none)
        else order_accepts "listo_para_pago" o (refused 500 none)))
set_status_lem_example =
    set_status_lem "listo_para_pago" (failed "") 2 acked (refused 500 none) page

-- The pending items, with one item of cart 4.
abbrev item : CartItem
item = record {
  product_id = 8;
  variant_id = 9;
  quantity = 3;
  location = record { upper = none; lower = some "salta" };
  product_name = some "Remera";
  variant = none;
  requires_stock_check = true;
  stock_confirmed = false;
}

abbrev row : String → ℕ → ℕ → StockRow
row place n reserved = record {
  stock = record { upper = none; lower = some (pos n) };
  reserved = record { upper = none; lower = some (pos reserved) };
  location = record { upper = none; lower = some place };
}

abbrev pending_page : PendingPage
pending_page = record {
  page = page;
  pending_item_locations = λ k. none;
  showing_locations = λ k. false;
  selected_pending_locations = λ k. none;
  requested = [];
}

abbrev actions : List (ℕ × CartItem × PendingAction)
actions =
    (4, item, see (accepted (rows (row "salta" 5 3 ∷ row "deposito" 9 2 ∷ []))))
    ∷ (4, item, choice 0)
    ∷ (4, item, choice 1)
    ∷ []

-- The first place has too little without what is reserved; the second is taken.
reserved_there :
    (confirm_stock 4 item acked (failed "") (act_all actions pending_page)).requested
    ≡ reserve 8 9 4 "deposito" ∷ []
unfolding confirm_stock act_all act see_places choose item_key has_enough available stocks_of ◌-ℤ◌
    show_ℕ
reserved_there = refl

confirm_stock-act_all_example :
    Reserves 4 item
      (act_all actions pending_page)
      (confirm_stock 4 item acked (failed "") (act_all actions pending_page))
confirm_stock-act_all_example =
    confirm_stock-act_all (λ k. 3) actions pending_page (λ k. refl) (refl, (refl, (refl, tt))) 4
      item acked (failed "") refl

abbrev letters : Letters
letters = record {
  to_upper_case = λ s. s;
  to_lower_case = λ s. s;
  char_at_zero = λ s. s;
  slice_one = λ s. "";
}

abbrev recheck_page : RecheckPage
recheck_page = record {
  page = page;
  selected_location_map = λ n. none;
  confirmed_stock_alerts = λ k. none;
}

abbrev answers : ℕ → Reply StockAnswer
answers n = accepted (rows (row "salta" 5 3 ∷ []))

recheck_lem_example :
    let t = recheck letters 4 answers (item ∷ []) recheck_page in
    (is_success t.page.modal ≡ not (any (short none answers) (item ∷ [])))
    × ((k : String)
        → is_some (t.confirmed_stock_alerts k)
          ≡ any (λ it. str_eq k (alert_key it) && short none answers it) (item ∷ []))
recheck_lem_example = recheck_lem letters 4 answers (item ∷ []) recheck_page

abbrev hint : TierHint ℕ
hint = record { current_tier = tier 6 flat_amount; next_tier = some (tier 9 multiplier, 6) }

hinted : tier_hint tiers (item ∷ []) ≡ some hint
unfolding tier_hint total_quantity sort_by
hinted = refl

tier_hint-IsTop_example : IsTop (total_quantity (item ∷ [])) tiers hint.next_tier
tier_hint-IsTop_example = tier_hint-IsTop tiers (item ∷ []) hint hinted

abbrev log : List Click
log = (0, 0, "enviado") ∷ (0, 0, "pagado") ∷ (0, 1, "listo_para_pago") ∷ []

abbrev choice_page : ChoicePage ℕ
choice_page = record {
  page = page;
  search_query = "";
  show_search_results = true;
  search_results = [];
  selected_product = some 8;
  variants = 9 ∷ [];
  add_qty = 2;
  variant_stocks_map = λ n. none;
  selected_location_map = λ n. some "salta";
  selected_variant_map = λ n. some 9;
  added = [];
}

click_add-click_product_example :
    (click_add 4 0 acked
      (failed "")
      (click_product 7 "Buzo" (accepted (some (11 ∷ []))) choice_page)).added
    ≡ []
      ++ (record {
        cart_id = 4;
        product_id = 7;
        variant_id = 9;
        quantity = 2;
        location = sent_location (some "salta");
      }
          ∷ [])
click_add-click_product_example =
    click_add-click_product 4 0 6 8 "Buzo" (accepted (some (11 ∷ []))) acked (failed "") choice_page
      refl
