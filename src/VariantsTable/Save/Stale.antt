-- ===== src/VariantsTable/Save/Stale.antt =====
-- What stays of a change in front/src/components/VariantsTable.tsx when the image is spread after it.
use go_moda_mayor.Net.{Reply, failed, refused, garbled, accepted}
use go_moda_mayor.Prelude.{
  ℕ, suc, ◌≡◌, refl, ◌&&◌, Option, none, some, List, String, if◌then◌else◌, truthy, Bool-cases, inl,
  inr,
}
use go_moda_mayor.VariantsTable.{Variant, Table, id_or}
use go_moda_mayor.VariantsTable.Upload.{Propagated, apply_image, text_of}
use go_moda_mayor.VariantsTable.Save.{
  click_save, save_with, save_row, after_save, spread_image, spread, spread_to, set_row_at,
}

-- The identifiers to which the server says that it gave the image.
abbrev pub ids_of : Reply Propagated → Option (List ℕ)
ids_of (failed m) = none
ids_of (refused status e) = none
ids_of (garbled m) = none
ids_of (accepted p) = p.updated_ids

module _ {B : Type 0} where
  -- The rows `rows` with the image, or those that there were.
  abbrev pub spread_rows :
      Option (List ℕ) → Option String → List (Variant B) → List (Variant B) → List (Variant B)
  spread_rows none url rows old = old
  spread_rows (some ids) url rows old = apply_image ids url rows

  abbrev Left : List (Variant B) → Option ℕ → Table B → Type 0
  Left vs place t = (t.variants ≡ vs) × (t.edit_idx ≡ place)

  spread_to-Left :
      (url : Option String) (rows : List (Variant B)) (ids : Option (List ℕ)) (count : Option ℕ)
      (s : Table B)
      → Left (spread_rows ids url rows s.variants) s.edit_idx (spread_to url rows ids count s)
  unfolding spread_to
  spread_to-Left url rows none count s = (refl, refl)
  spread_to-Left url rows (some ids) count s = (refl, refl)

  spread-Left :
      (message : String) (url : Option String) (rows : List (Variant B)) (prop : Reply Propagated)
      (s : Table B)
      → Left
          (spread_rows (ids_of prop) url rows s.variants)
          s.edit_idx
          (spread message url rows (text_of "Error al propagar imagen" prop) s)
  unfolding spread
  spread-Left message url rows (failed m) s = (refl, refl)
  spread-Left message url rows (refused status e) s = (refl, refl)
  spread-Left message url rows (garbled m) s = (refl, refl)
  spread-Left message url rows (accepted p) s =
      spread_to-Left url rows p.updated_ids p.updated_count s

  -- When the server accepts a change of a row with an identifier, the row is what the server answers,
  -- unless its image is then given to other variants: then the rows are those from before the change,
  -- with that image. The row stays in edition.
  pub click_save-accepted :
      (u v : Variant B) (n p : ℕ) (prop : Reply Propagated) (s : Table B)
      → s.edit_variant ≡ some v
      → id_or v.id ≡ some (suc n)
      → s.product_id ≡ suc p
      → let t = click_save (accepted u) prop s in
        let changed = set_row_at s.edit_idx u s.variants in
        (t.variants ≡ (
          if truthy u.image_url && truthy u.color
          then spread_rows (ids_of prop) u.image_url s.variants changed
          else changed))
        × (t.edit_idx ≡ s.edit_idx)
  unfolding click_save save_with save_row after_save spread_image
  click_save-accepted u v n p prop s editing known saved = elim (Bool-cases (truthy u.image_url)) [
    | inr e ↦ rw (editing, saved, known, e) (refl, refl)
    | inl e ↦ elim (Bool-cases (truthy u.color)) [
      | inr c ↦ rw (editing, saved, known, e, c) (refl, refl)
      | inl c ↦
          rw (editing, saved, known, e, c)
            (spread-Left "Imagen actualizada, pero falló persistir propagación" u.image_url
              s.variants prop _)
    ]
  ]
