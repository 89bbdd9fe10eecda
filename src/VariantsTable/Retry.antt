-- ===== src/VariantsTable/Retry.antt =====
-- The button for another try beside an error in front/src/components/VariantsTable.tsx, and the one
-- that attaches the URL of an image to a row.
pub mod Failed
use text.Mathlib.Text.{starts_with}
use go_moda_mayor.Net.{Reply}
use go_moda_mayor.Orders.{Result, ok, thrown}
use go_moda_mayor.Prelude.{
  ℕ, zero, suc, Bool, true, false, ◌||◌, Option, none, some, List, String, if◌then◌else◌, str_eq,
  text_or, or_else, get_elem?,
}
use go_moda_mayor.VariantsTable.{
  Variant, Table, create, update, put, nonzero, id_or, id_of, send, toast_success, toast_error,
  answer_of, set_row, propagate,
}
use go_moda_mayor.VariantsTable.Upload.{Propagated, text_of, upload_variant_image}
use go_moda_mayor.VariantsTable.Save.{real_id, spread_image}

-- `/^https?:\/\//i.test(url)`, or a path; `to_lower_case` is the language's.
abbrev is_url : (String → String) → String → Bool
is_url to_lower_case url =
    starts_with (to_lower_case url) "http://"
    || starts_with (to_lower_case url) "https://"
    || starts_with url "/"

module _ {B : Type 0} where
  fail_try : ℕ → String → Table B → Table B
  fail_try idx m s = record s { row_error = put idx (text_or (some m) "Error") s.row_error }

  pass_try : ℕ → Table B → Table B
  pass_try idx s = record s { row_error = put idx "" s.row_error }

  module _ (idx : ℕ) (rows : List (Variant B)) (up : Reply (Variant B))
      (prop : Reply Propagated) where
    -- The upload of the file, if there is one and the row has an identifier.
    upload_file : Option B → Option ℕ → Option ℕ → Table B → Table B
    upload_file none real id s = s
    upload_file (some file) none id s = s
    upload_file (some file) (some n) id s = upload_variant_image rows id file idx up prop s

    after_try_create : Option B → Result (Variant B) → Table B → Table B
    unfolding upload_file fail_try pass_try
    after_try_create file (thrown m) s = fail_try idx m s
    after_try_create file (ok u) s = pass_try idx (
        upload_file file (real_id (id_or u.id)) (id_of u.id)
          (record s { variants = set_row idx u rows }))

    after_try_update : Variant B → Result (Variant B) → Table B → Table B
    unfolding fail_try pass_try
    after_try_update v (thrown m) s = fail_try idx m s
    after_try_update v (ok u) s = pass_try idx (record s { variants = set_row idx v rows })

    try_old : Variant B → ℕ → Option B → Reply (Variant B) → Table B → Table B
    unfolding after_try_update
    try_old v id none reply s =
        after_try_update v (answer_of "Error al actualizar variante" reply) (send (update id v) s)
    try_old v id (some file) reply s =
        pass_try idx (upload_file (some file) (some id) (id_of v.id) s)

    try_row : Variant B → Option ℕ → Reply (Variant B) → Table B → Table B
    unfolding after_try_create try_old
    try_row v none reply s =
        after_try_create v.file (answer_of "Error al crear variante" reply) (send (create v) s)
    try_row v (some id) reply s = try_old v id v.file reply s

  retry_found :
      Option (Variant B)
      → ℕ
      → Reply (Variant B)
      → Reply (Variant B)
      → Reply Propagated
      → Table B
      → Table B
  unfolding try_row
  retry_found none idx reply up prop s = s
  retry_found (some v) idx reply up prop s =
      let t =
        try_row idx s.variants up prop v (real_id (id_or v.id)) reply
          (record s { row_error = put idx "" s.row_error; saving = put idx true s.saving }) in
      record t { saving = put idx false t.saving }

  -- The answers to the creation or the update, to an upload and to a propagation.
  pub retry_row : ℕ → Reply (Variant B) → Reply (Variant B) → Reply Propagated → Table B → Table B
  unfolding retry_found
  retry_row idx reply up prop s = retry_found (get_elem? s.variants idx) idx reply up prop s

  -- The row with nothing but the URL, as it is sent.
  abbrev url_only : String → Variant B
  url_only url = record {
    id = record { upper = none; lower = none };
    color = none;
    size = none;
    sku = none;
    image_url = some url;
    file = none;
  }

  after_attach : String → Variant B → ℕ → Result (Variant B) → Reply Propagated → Table B → Table B
  after_attach url v idx (thrown m) prop s =
      toast_error (text_or (some m) "Error al adjuntar URL") s
  after_attach url v idx (ok u) prop s =
      let next = set_row idx (record v { image_url = some url }) s.variants in
      spread_image "URL adjuntada, pero falló persistir propagación" (or_else u.color v.color)
        (some url) next prop (toast_success "URL adjuntada" (record s { variants = next }))

  attach_to :
      String → Variant B → ℕ → Option ℕ → Reply (Variant B) → Reply Propagated → Table B → Table B
  unfolding after_attach
  attach_to url v idx none reply prop s =
      toast_error "Primero guarda la variante para adjuntar una URL" s
  attach_to url v idx (some id) reply prop s =
      after_attach url v idx (answer_of "Error al actualizar variante" reply) prop
        (send (update id (url_only url)) s)

  -- The button "Adjuntar URL" of the row `v`, with the user's text, if there is one.
  pub attach_url :
      (String → String)
      → Option String
      → Variant B
      → ℕ
      → Reply (Variant B)
      → Reply Propagated
      → Table B
      → Table B
  unfolding attach_to
  attach_url to_lower_case none v idx reply prop s = s
  attach_url to_lower_case (some url) v idx reply prop s =
      if str_eq url ""
      then s
      else if is_url to_lower_case url
      then attach_to url v idx (real_id (id_of v.id)) reply prop s
      else toast_error "URL inválida. Debe comenzar con http(s) o con /uploads/..." s
