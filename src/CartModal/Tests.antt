-- ===== src/CartModal/Tests.antt =====
-- Runs of front/src/components/CartModal.tsx, and its theorems at concrete inputs. Prices are whole
-- cents, and a cart is its number.
use go_moda_mayor.Prelude.{
  ℕ, ◌+◌, ◌≡◌, refl, ◌≤◌, ◌⊎◌, Bool, true, false, none, some, List, [], ◌∷◌, keep,
}
use go_moda_mayor.Prelude.Int.{pos}
use go_moda_mayor.Prelude.Sort.{sort_by, insert_by}
use go_moda_mayor.Cents.{cents, cent_amounts}
use go_moda_mayor.Net.{failed, accepted}
use go_moda_mayor.GuestCart.Shelf.{shelf}
use go_moda_mayor.GuestCart.Items.{GuestCartItem}
use go_moda_mayor.Orders.{Spelled}
use go_moda_mayor.Summary.{SummaryTier}
use go_moda_mayor.StockCheck.{StockIssue, out_of_stock}
use go_moda_mayor.CartModal.{ModalItem, PricedItem, previous_tier, items_with_pricing}
use go_moda_mayor.CartModal.Tiers.{IsPrevious, previous_tier-IsPrevious}
use go_moda_mayor.CartModal.Totals.{
  confirmed_quantity, pending_quantity, total_quantity_including_pending, subtotal, total_savings,
}
use go_moda_mayor.CartModal.Totals.Counted.{sum_of, counted, sold_out, totals_lem}
use go_moda_mayor.CartModal.Seller.{
  SellerState, Answers, click_request_seller, min_wholesale_quantity,
}
use go_moda_mayor.CartModal.Seller.Request.{IsQuiet, IsPosted, HasAddress, click_request_seller_lem}

abbrev tier : ℕ → ℕ → Bool → SummaryTier ℕ
tier n minimum active = record {
  id = n;
  name = "t";
  display_name = "T";
  formula_type = "multiplier";
  multiplier = 3;
  percentage = 0;
  flat_amount = 0;
  min_quantity = minimum;
  order_index = n;
  active = active;
  is_default = false;
  show_in_public = true;
  color_code = "";
}

abbrev tiers : List (SummaryTier ℕ)
tiers = tier 1 1 true ∷ tier 2 6 true ∷ tier 3 9 false ∷ tier 4 12 true ∷ []

below_twelve : previous_tier (tier 4 12 true) tiers ≡ some (tier 2 6 true)
unfolding previous_tier sort_by insert_by
below_twelve = refl

previous_tier-IsPrevious_example :
    IsPrevious (tier 4 12 true) tiers (previous_tier (tier 4 12 true) tiers)
previous_tier-IsPrevious_example = previous_tier-IsPrevious (tier 4 12 true) tiers

abbrev shirt : ℕ → ℕ → Bool → ModalItem ℕ
shirt variant quantity unsure = record {
  id = variant;
  product_id = 4;
  variant_id = variant;
  quantity = some quantity;
  product_price = some 900;
  product = none;
  requires_stock_check = unsure;
  stock_confirmed = false;
}

abbrev rack : List (PricedItem ℕ)
rack = items_with_pricing false none (shirt 1 7 false ∷ shirt 2 2 true ∷ shirt 3 1 false ∷ [])

-- The third shirt is out of stock.
abbrev issues : List StockIssue
issues =
    record {
      cart_item_id = 3;
      product_id = 4;
      product_name = "Remera";
      variant_id = 3;
      variant_name = "";
      requested_qty = 1;
      available_stock = 0;
      issue_type = out_of_stock;
      suggested_action = "";
      image_url = "";
    }
    ∷ []

totals_lem_example :
    (confirmed_quantity issues rack ≡ confirmed_quantity issues (keep (counted issues) rack))
    × (subtotal issues rack ≡ subtotal issues (keep (counted issues) rack))
    × (total_savings issues rack ≡ total_savings issues (keep (counted issues) rack))
    × (total_quantity_including_pending issues rack
        ≡ confirmed_quantity issues rack + pending_quantity rack)
    × (sum_of rack
        ≡ total_quantity_including_pending issues rack + sum_of (keep (sold_out issues) rack))
totals_lem_example = totals_lem issues rack

abbrev visitor : SellerState ℕ
visitor = record {
  shared = record {
    cart = some 8;
    loading = false;
    error = "";
    message = "";
    token = some "t";
    path = "/carrito";
    redirects = 0;
    global = some 8;
    others = [];
    sent = [];
  };
  stored_user = some "u";
  requesting_seller = false;
  info_message = none;
  show_add_address_modal = false;
  show_seller_requested_modal = false;
  seller_name = "";
  alerts = [];
  asked = [];
  posted = [];
}

abbrev answers : Answers ℕ
answers = record {
  addresses = accepted (some 2);
  assignment = accepted (some "Ana");
  cart = failed "Error de conexión";
}

abbrev ids : ℕ → Spelled ℕ
ids c = record { upper = none; lower = some c }

click_request_seller_lem_example :
    let t =
      click_request_seller answers
        (λ s. some (some 5))
        ids
        (confirmed_quantity issues rack)
        visitor in
    IsQuiet visitor t
    ⊎ ((visitor.requesting_seller ≡ false)
        × (min_wholesale_quantity ≤ sum_of (keep (counted issues) rack))
        × HasAddress answers visitor
        × IsPosted answers visitor t)
click_request_seller_lem_example =
    click_request_seller_lem answers (λ s. some (some 5)) ids issues rack visitor

-- The visitor has opened and closed the window at once.
abbrev skirt : GuestCartItem ℕ
skirt = record { product_id = 4; variant_id = 2; quantity = pos 1; metadata = none }
