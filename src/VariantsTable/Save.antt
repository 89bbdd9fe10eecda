-- ===== src/VariantsTable/Save.antt =====
-- The rows of front/src/components/VariantsTable.tsx: adding one, saving one that is edited, attaching
-- the URL of an image, and another try after an error.
pub mod Stale
use go_moda_mayor.Net.{Reply, Ack}
use go_moda_mayor.Orders.{Result, ok, thrown}
use go_moda_mayor.Prelude.{
  ℕ, zero, suc, Bool, true, false, not, ◌&&◌, ◌||◌, Option, none, some, List, [], ◌∷◌, ◌++◌, String,
  if◌then◌else◌, length, truthy, text_or, get_or, or_else, concat, get_elem?, is_some,
}
use go_moda_mayor.Prelude.Decimal.{show_ℕ}
use go_moda_mayor.VariantsTable.{
  Variant, Table, create, update, propagate, put, nonzero, id_or, id_of, send, toast_success,
  toast_error, answer_of, set_row,
}
use go_moda_mayor.VariantsTable.Upload.{
  Propagated, text_of, apply_image, count_of, upload_variant_image,
}

abbrev shown : Option String → String
shown t = get_or t ""

abbrev empty_row : {B : Type 0} → Variant B
empty_row = record {
  id = record { upper = none; lower = none };
  color = some "";
  size = some "";
  sku = some "";
  image_url = none;
  file = none;
}

-- An identifier that the code takes for one.
abbrev pub real_id : Option ℕ → Option ℕ
real_id none = none
real_id (some zero) = none
real_id (some (suc n)) = some (suc n)

module _ {B : Type 0} where
  -- The answer to the propagation of an image to the rows `rows`.
  spread_to : Option String → List (Variant B) → Option (List ℕ) → Option ℕ → Table B → Table B
  spread_to url rows none count s = s
  spread_to url rows (some ids) count s =
      toast_success
        (concat ("Imagen propagada a " ∷ show_ℕ (count_of count ids) ∷ " variantes." ∷ []))
        (record s { variants = apply_image ids url rows })

  spread : String → Option String → List (Variant B) → Result Propagated → Table B → Table B
  unfolding spread_to
  spread message url rows (thrown m) s = toast_error (text_or (some m) message) s
  spread message url rows (ok p) s = spread_to url rows p.updated_ids p.updated_count s

  -- `if (image_url && color && productId)`
  pub spread_image :
      String
      → Option String
      → Option String
      → List (Variant B)
      → Reply Propagated
      → Table B
      → Table B
  unfolding spread
  spread_image message color url rows reply s =
      if truthy url && truthy color && nonzero s.product_id
      then spread message url rows (text_of "Error al propagar imagen" reply)
          (send (propagate (shown color) (shown url)) s)
      else s

  after_create : Result (Variant B) → Reply Propagated → Table B → Table B
  unfolding spread_image
  after_create (thrown m) prop s = toast_error (text_or (some m) "Error al crear variante") s
  after_create (ok created) prop s =
      let next = s.variants ++ (created ∷ []) in
      let t = toast_success "Variante creada" (record s { variants = next }) in
      record (spread_image "Imagen creada, pero falló persistir propagación" created.color
        created.image_url next prop t) {
          new_variant = empty_row;
          edit_idx = some (length s.variants);
        }

  abbrev is_complete : Variant B → Bool
  is_complete v = (truthy v.size || truthy v.color) && truthy v.sku

  create_row : ℕ → Reply (Variant B) → Reply Propagated → Table B → Table B
  unfolding after_create
  create_row zero reply prop s =
      record (toast_success "Variante creada localmente (guarda el producto para persistir)" s) {
        variants = s.variants ++ (s.new_variant ∷ []);
        new_variant = empty_row;
      }
  create_row (suc p) reply prop s =
      after_create (answer_of "Error al crear variante" reply) prop (send (create s.new_variant) s)

  -- The button "Agregar", for a row without a file, when the 10 ms until the new row is in edition are
  -- over too.
  pub add_row : Reply (Variant B) → Reply Propagated → Table B → Table B
  unfolding create_row
  add_row reply prop s =
      if is_complete s.new_variant
      then create_row s.product_id reply prop s
      else toast_error "Completa tamaño/color y SKU" s

  -- `variants.map((v, i) => i === idx ? ... : v)`, where `idx` may be null.
  abbrev pub set_row_at : Option ℕ → Variant B → List (Variant B) → List (Variant B)
  set_row_at none v vs = vs
  set_row_at (some idx) v vs = set_row idx v vs

  -- What is known of the row to be saved: the identifier, if the product has one too.
  abbrev saved_id : ℕ → Variant B → Option ℕ
  saved_id zero v = none
  saved_id (suc p) v = real_id (id_or v.id)

  abbrev close_edit : ℕ → Table B → Table B
  close_edit idx s = record s {
    saving = put idx false s.saving;
    edit_idx = none;
    edit_variant = none;
  }

  after_edit : ℕ → Result (Variant B) → Table B → Table B
  after_edit idx (thrown m) s =
      record (toast_error (text_or (some m) "Error al actualizar variante") s) {
        row_error = put idx (text_or (some m) "Error") s.row_error;
      }
  after_edit idx (ok u) s =
      toast_success "Variante actualizada" (record s { variants = set_row idx u s.variants })

  edit_row : Option ℕ → ℕ → Variant B → Reply (Variant B) → Table B → Table B
  unfolding after_edit
  edit_row none idx v reply s = close_edit idx (
      toast_success "Variante actualizada localmente"
        (record s { variants = set_row idx v s.variants; saving = put idx true s.saving }))
  edit_row (some id) idx v reply s = close_edit idx (
      after_edit idx (answer_of "Error al actualizar variante" reply)
        (send (update id v) (record s { saving = put idx true s.saving })))

  edit_save_with : Option (Variant B) → Option ℕ → Reply (Variant B) → Table B → Table B
  unfolding edit_row
  edit_save_with none idx reply s = s
  edit_save_with (some v) none reply s = s
  edit_save_with (some v) (some idx) reply s = edit_row (saved_id s.product_id v) idx v reply s

  pub handle_edit_save : Reply (Variant B) → Table B → Table B
  unfolding edit_save_with
  handle_edit_save reply s = edit_save_with s.edit_variant s.edit_idx reply s

  -- The rows as they were before the update take the image.
  after_save : Result (Variant B) → Reply Propagated → Table B → Table B
  unfolding spread_image
  after_save (thrown m) prop s = toast_error (text_or (some m) "Error al actualizar variante") s
  after_save (ok u) prop s =
      spread_image "Imagen actualizada, pero falló persistir propagación" u.color u.image_url
        s.variants prop
        (toast_success "Variante actualizada"
          (record s { variants = set_row_at s.edit_idx u s.variants }))

  save_row : Option ℕ → Variant B → Reply (Variant B) → Reply Propagated → Table B → Table B
  unfolding after_save
  save_row none v reply prop s =
      toast_success "Variante actualizada localmente" (handle_edit_save reply s)
  save_row (some id) v reply prop s =
      after_save (answer_of "Error al actualizar variante" reply) prop (send (update id v) s)

  save_with : Option (Variant B) → Reply (Variant B) → Reply Propagated → Table B → Table B
  unfolding save_row
  save_with none reply prop s = s
  save_with (some v) reply prop s = save_row (saved_id s.product_id v) v reply prop s

  -- The button "Guardar" of a row in edition.
  pub click_save : Reply (Variant B) → Reply Propagated → Table B → Table B
  unfolding save_with
  click_save reply prop s = save_with s.edit_variant reply prop s
