-- ===== src/SellerCarts/Choice/Left.antt =====
-- What an earlier choice in front/src/app/vendedora/carritos/page.tsx leaves for a later one.
use go_moda_mayor.Prelude.{ℕ, suc, ◌≡◌, refl, Option, none, some, List, [], ◌∷◌, ◌++◌, String}
use go_moda_mayor.Net.{Reply, Ack, failed, refused, acked}
use go_moda_mayor.SellerCarts.{SellerCart}
use go_moda_mayor.SellerCarts.Items.{StockRow, StockAnswer}
use go_moda_mayor.SellerCarts.Choice.{
  ChoicePage, set_number, on_select_product, click_product, store_rows, fetch_variant_stocks,
  preselect, on_variant_select, change_variant, after_add, cleared, sent_location, add_to_cart,
  click_add,
}

module _ {V : Type 0} where
  after_add-added :
      (reply : Ack) (carts : Reply (Option (List SellerCart))) (s : ChoicePage V)
      → (after_add reply carts s).added ≡ s.added
  unfolding after_add cleared
  after_add-added (failed m) carts s = refl
  after_add-added (refused status e) carts s = refl
  after_add-added acked carts s = refl

  -- A seller who has chosen a variant for a cart, and then clicks on another product and adds it, sends
  -- that product with the variant chosen before, whatever the list of variants shows, and with the
  -- place chosen before.
  pub click_add-click_product :
      (cart_id field product variant : ℕ) (name : String) (listed : Reply (Option (List V)))
      (reply : Ack) (carts : Reply (Option (List SellerCart))) (s : ChoicePage V)
      → s.selected_variant_map cart_id ≡ some (suc variant)
      → (click_add cart_id field reply carts (click_product (suc product) name listed s)).added
        ≡ s.added
          ++ (record {
            cart_id = cart_id;
            product_id = suc product;
            variant_id = suc variant;
            quantity = s.add_qty;
            location = sent_location (s.selected_location_map cart_id);
          }
              ∷ [])
  unfolding click_add click_product on_select_product add_to_cart
  click_add-click_product cart_id field product variant name listed reply carts s e =
      rw e (after_add-added reply carts _)

  store_rows-kept :
      (o : Option (List StockRow)) (variant : ℕ) (reply : Reply StockAnswer) (s : ChoicePage V)
      → (store_rows o variant reply s).selected_location_map ≡ s.selected_location_map
  unfolding store_rows
  store_rows-kept none variant reply s = refl
  store_rows-kept (some old) variant reply s = refl

  -- A variant whose stocks are not kept yet: its choice leaves the places as they were, whatever
  -- stocks the server answers.
  pub change_variant-kept :
      (cart_id variant : ℕ) (reply : Reply StockAnswer) (s : ChoicePage V)
      → s.variant_stocks_map (suc variant) ≡ none
      → (change_variant cart_id (suc variant) reply s).selected_location_map
        ≡ s.selected_location_map
  unfolding change_variant on_variant_select preselect fetch_variant_stocks
  change_variant-kept cart_id variant reply s e = rw e (
      store_rows-kept none (suc variant) reply (record s {
        add_qty = 1;
        selected_variant_map = set_number cart_id (some (suc variant)) s.selected_variant_map;
      }))
