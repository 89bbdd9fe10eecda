-- ===== src/Inventory/Edit.antt =====
-- The changes of stock in front/src/app/admin/inventario/page.tsx: in the row of a product or of a
-- variant, which are sent when the field is left, and in the window with the details, with a button
-- for each place.
pub mod Sent
use go_moda_mayor.Net.{Ack, failed, refused, acked}
use go_moda_mayor.Prelude.{
  ℕ, zero, suc, Bool, true, false, Option, none, some, List, [], ◌∷◌, ◌++◌, String, ◌==◌,
  if◌then◌else◌, str_eq,
}
use go_moda_mayor.Prelude.Int.{ℤ}
use go_moda_mayor.Inventory.{InventoryProduct, InventoryVariant}
use go_moda_mayor.Inventory.Load.{Inquiry, Editing, InventoryPage, load_inventory}

-- `variantId ? { variant_id } : { product_id }`
abbrev pub sent_variant : Option ℕ → Option ℕ
sent_variant none = none
sent_variant (some zero) = none
sent_variant (some (suc n)) = some (suc n)

after_update : Inquiry → Ack → InventoryPage → InventoryPage
after_update q (failed m) s = record s { error = some m }
after_update q (refused status e) s = record s { error = some "Error actualizando stock" }
after_update q acked s =
    load_inventory q
      (record s { success = some "Stock actualizado exitosamente"; editing_stock = none })

abbrev has_variants : Option (List InventoryVariant) → Bool
has_variants none = false
has_variants (some []) = false
has_variants (some (v ∷ vs)) = true

abbrev is_variant : ℕ → Option ℕ → Bool
is_variant v none = false
is_variant v (some w) = w == v

abbrev pub id_of : Option InventoryVariant → Option ℕ
id_of none = none
id_of (some v) = some v.id

module _ (q : Inquiry) (ack : Ack) where
  pub handle_update_stock : Option ℕ → ℕ → String → ℤ → InventoryPage → InventoryPage
  unfolding after_update
  handle_update_stock variant product place new s = after_update q ack (record s {
    posted =
        s.posted
        ++ (record {
          variant_id = sent_variant variant;
          product_id = product;
          location = place;
          value = new;
        }
            ∷ []);
  })

  -- The field of a product without variants is left.
  blur_with : Option Editing → Bool → ℕ → String → InventoryPage → InventoryPage
  blur_with none has_variants product place s = s
  blur_with (some e) true product place s = s
  blur_with (some e) false product place s = handle_update_stock none product place e.value s

  pub blur_product : InventoryProduct → String → InventoryPage → InventoryPage
  unfolding blur_with
  blur_product p place s = blur_with s.editing_stock (has_variants p.variants) p.id place s

  -- The field of a variant is left.
  blur_variant_with :
      Option Editing → InventoryVariant → InventoryProduct → String → InventoryPage → InventoryPage
  blur_variant_with none v p place s = s
  blur_variant_with (some e) v p place s =
      if is_variant v.id e.variant_id
      then handle_update_stock (some v.id) p.id place e.value s
      else s

  pub blur_variant : InventoryVariant → InventoryProduct → String → InventoryPage → InventoryPage
  unfolding blur_variant_with
  blur_variant v p place s = blur_variant_with s.editing_stock v p place s

  -- The button of a place, in the window with the details.
  adjust_with :
      Option Editing
      → Option InventoryVariant
      → InventoryProduct
      → String
      → InventoryPage
      → InventoryPage
  adjust_with none v p place s = s
  adjust_with (some e) v p place s =
      if str_eq e.location place then handle_update_stock (id_of v) p.id place e.value s else s

  pub adjust : Option InventoryVariant → InventoryProduct → String → InventoryPage → InventoryPage
  unfolding adjust_with
  adjust v p place s = adjust_with s.editing_stock v p place s

-- What is typed in one of the fields; that of a product with variants can only be read.
pub type_stock : Option ℕ → ℕ → String → ℤ → InventoryPage → InventoryPage
type_stock variant product place value s = record s {
  editing_stock =
      some (record { variant_id = variant; product_id = product; location = place; value = value });
}

-- The button "Guardar cambios" of the window with the details.
pub save_changes : Inquiry → InventoryPage → InventoryPage
save_changes q s = load_inventory q (record s { success = some "Cambios guardados" })
