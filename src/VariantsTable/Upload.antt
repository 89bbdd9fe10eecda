-- ===== src/VariantsTable/Upload.antt =====
-- The images of front/src/components/VariantsTable.tsx: their upload, and the request that gives the
-- image to all variants of the same colour.
use go_moda_mayor.Net.{Reply, failed, refused, garbled, accepted}
use go_moda_mayor.Orders.{Result, ok, thrown}
use go_moda_mayor.Prelude.{
  ℕ, zero, suc, Bool, true, false, ◌&&◌, Option, none, some, List, [], ◌∷◌, map, String, ◌==◌,
  if◌then◌else◌, any, length, truthy, text_or, get_or, or_else, concat,
}
use go_moda_mayor.Prelude.Decimal.{show_ℕ}
use go_moda_mayor.VariantsTable.{
  Variant, Table, upload, propagate, put, nonzero, id_or, id_of, same, send, toast_success,
  toast_error,
}

-- The JSON of the answer to `propagate-image`; `updated_ids` is `none` if it is no array.
pub record Propagated : Type 0 where
  pub updated_ids : Option (List ℕ)
  pub updated_count : Option ℕ

-- The text of an answer that is not `ok`, or a default.
abbrev pub text_of : {A : Type 0} → String → Reply A → Result A
text_of message (failed m) = thrown m
text_of message (refused status e) = thrown (text_or e message)
text_of message (garbled m) = thrown m
text_of message (accepted a) = ok a

-- `vid && updatedIds.includes(vid)`
abbrev is_updated : List ℕ → Option ℕ → Bool
is_updated ids none = false
is_updated ids (some zero) = false
is_updated ids (some (suc n)) = any (λ i. i == suc n) ids

-- How many variants a toast says that the image reached.
abbrev pub count_of : Option ℕ → List ℕ → ℕ
count_of count ids = get_or count (length ids)

module _ {B : Type 0} where
  abbrev pub apply_image : List ℕ → Option String → List (Variant B) → List (Variant B)
  apply_image ids url vs =
      map (λ v. if is_updated ids (id_of v.id) then record v { image_url = url } else v) vs

  -- `{ ...v, ...updated }`, where the answer has a field or lacks it.
  abbrev pub merge : Variant B → Variant B → Variant B
  merge v u = record {
    id = record { upper = or_else u.id.upper v.id.upper; lower = or_else u.id.lower v.id.lower };
    color = or_else u.color v.color;
    size = or_else u.size v.size;
    sku = or_else u.sku v.sku;
    image_url = or_else u.image_url v.image_url;
    file = or_else u.file v.file;
  }

  pub merge_rows : Variant B → List (Variant B) → List (Variant B)
  merge_rows u vs = map (λ v. if same (id_or v.id) (id_of u.id) then merge v u else v) vs

  propagated_to : Option String → List (Variant B) → Option (List ℕ) → Option ℕ → Table B → Table B
  propagated_to url rows none count s = toast_success "Imagen subida. Propagación completada." s
  propagated_to url rows (some ids) count s =
      toast_success
        (concat ("Imagen subida. Propagada a " ∷ show_ℕ (count_of count ids) ∷ " variantes." ∷ []))
        (record s { variants = apply_image ids url rows })

  propagated : Option String → List (Variant B) → Result Propagated → Table B → Table B
  unfolding propagated_to
  propagated url rows (thrown m) s =
      toast_error (text_or (some m) "Imagen subida, pero falló persistir propagación") s
  propagated url rows (ok p) s = propagated_to url rows p.updated_ids p.updated_count s

  after_upload : List (Variant B) → ℕ → Result (Variant B) → Reply Propagated → Table B → Table B
  unfolding propagated merge_rows
  after_upload rows idx (thrown m) reply s =
      let message = text_or (some m) "Error al subir imagen" in
      toast_error message (record s { row_error = put idx message s.row_error })
  after_upload rows idx (ok u) reply s =
      let next = merge_rows u rows in
      let t = record s { variants = next } in
      if truthy u.image_url && truthy u.color && nonzero s.product_id
      then propagated u.image_url next (text_of "Error al propagar imagen" reply)
          (send (propagate (get_or u.color "") (get_or u.image_url "")) t)
      else toast_success "Imagen subida." t

  -- `rows` are the variants of the render in which the upload began.
  pub upload_variant_image :
      List (Variant B) → Option ℕ → B → ℕ → Reply (Variant B) → Reply Propagated → Table B → Table B
  unfolding after_upload
  upload_variant_image rows none file idx up prop s =
      toast_error "Guarda la variante antes de subir una imagen" s
  upload_variant_image rows (some zero) file idx up prop s =
      toast_error "Guarda la variante antes de subir una imagen" s
  upload_variant_image rows (some (suc n)) file idx up prop s =
      let t = after_upload rows idx (text_of "Error al subir imagen" up) prop (
        send (upload (suc n) file) (record s {
          uploading = put idx true s.uploading;
          row_error = put idx "" s.row_error;
        })) in
      record t { uploading = put idx false t.uploading }
