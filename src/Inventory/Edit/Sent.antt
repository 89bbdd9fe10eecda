-- ===== src/Inventory/Edit/Sent.antt =====
-- What a change of stock in front/src/app/admin/inventario/page.tsx sends.
use go_moda_mayor.Net.{Ack, failed, refused, acked}
use go_moda_mayor.Prelude.{
  ℕ, zero, suc, ◌≡◌, refl, Option, some, [], ◌∷◌, ◌++◌, String, ◌==◌, if◌then◌else◌, ◌<◌, arith,
  ◌∙◌, inl, inr, Bool-cases,
}
use text.Mathlib.TextPositions.{eq_refl}
use go_moda_mayor.Prelude.Int.{ℤ}
use go_moda_mayor.Inventory.{InventoryProduct, InventoryVariant}
use go_moda_mayor.Inventory.Load.{Inquiry, Editing, InventoryPage}
use go_moda_mayor.Inventory.Load.Posted.{load_inventory-posted}
use go_moda_mayor.Inventory.Edit.{
  handle_update_stock, after_update, sent_variant, blur_variant, blur_variant_with, adjust,
  adjust_with, id_of, type_stock, save_changes,
}

-- A stock to be posted.
abbrev pub stock_post : Option ℕ → ℕ → String → ℤ → Editing
stock_post variant product place value = record {
  variant_id = variant;
  product_id = product;
  location = place;
  value = value;
}

module _ (q : Inquiry) where
  after_update-posted : (ack : Ack) (s : InventoryPage) → (after_update q ack s).posted ≡ s.posted
  unfolding after_update
  after_update-posted (failed m) s = refl
  after_update-posted (refused status e) s = refl
  after_update-posted acked s = load_inventory-posted q _

  handle_update_stock-posted :
      (ack : Ack) (v : Option ℕ) (p : ℕ) (place : String) (value : ℤ) (s : InventoryPage)
      → (handle_update_stock q ack v p place value s).posted
        ≡ s.posted ++ (stock_post (sent_variant v) p place value ∷ [])
  unfolding handle_update_stock
  handle_update_stock-posted ack v p place value s = after_update-posted ack _

  -- The number that is typed for a variant is posted once when a field of that variant is left, for
  -- the chosen place and whatever the server answers, and not when that of another variant is left.
  pub blur_variant-type_stock :
      (ack : Ack) (v w : InventoryVariant) (p r : InventoryProduct) (place : String) (value : ℤ)
      (s : InventoryPage)
      → 0 < w.id
      → (blur_variant q ack w r place (type_stock (some v.id) p.id place value s)).posted ≡ (
          if v.id == w.id
          then s.posted ++ (stock_post (some w.id) r.id place value ∷ [])
          else s.posted)
  unfolding blur_variant blur_variant_with type_stock
  blur_variant-type_stock ack v w p r place value s h = elim (Bool-cases (v.id == w.id)) [
    | inl e ↦
        rw e (handle_update_stock-posted ack (some w.id) r.id place value _ ∙ rw (sent w.id h) refl)
    | inr e ↦ rw e refl
  ]
    where
      sent : (n : ℕ) → 0 < n → sent_variant (some n) ≡ some n
      sent zero k = absurd (omega arith)
      sent (suc n) k = refl

  -- The number that is typed in the window of one product or variant for a place is posted as the
  -- stock of another when the button of that place is pressed in the window of the other.
  pub adjust-type_stock :
      (ack : Ack) (v : Option ℕ) (w : Option InventoryVariant) (p r : InventoryProduct)
      (place : String) (value : ℤ) (s : InventoryPage)
      → (adjust q ack w r place (type_stock v p.id place value s)).posted
        ≡ s.posted ++ (stock_post (sent_variant (id_of w)) r.id place value ∷ [])
  unfolding adjust adjust_with type_stock
  adjust-type_stock ack v w p r place value s =
      rw (eq_refl place) (handle_update_stock-posted ack (id_of w) r.id place value _)

  -- The button for saving the changes says that they are saved, and posts none of what was typed.
  pub save_changes-type_stock :
      (v : Option ℕ) (p : InventoryProduct) (place : String) (value : ℤ) (s : InventoryPage)
      → let t = save_changes q (type_stock v p.id place value s) in t.posted ≡ s.posted
  unfolding save_changes type_stock
  save_changes-type_stock v p place value s = load_inventory-posted q _
