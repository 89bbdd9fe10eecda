-- ===== src/Products/Tests.antt =====
-- Runs of the products of front/src/utils/api.ts, and the theorem on them at a concrete input.
use go_moda_mayor.Prelude.{◌≡◌, refl, none, some, [], ◌∷◌, String, str_eq, if◌then◌else◌}
use go_moda_mayor.Products.{Fields, RawProduct, normalize_variant}

abbrev a_variant : Fields String
a_variant name =
    if str_eq name "ColorName"
    then some "rojo"
    else if str_eq name "ID"
    then some "5"
    else if str_eq name "talle"
    then some "M"
    else none

reads_color : normalize_variant a_variant "color" ≡ some "rojo"
unfolding normalize_variant
reads_color = refl

reads_id : normalize_variant a_variant "id" ≡ some "5"
unfolding normalize_variant
reads_id = refl

reads_size : normalize_variant a_variant "size" ≡ some "M"
unfolding normalize_variant
reads_size = refl

abbrev shirt : RawProduct String
shirt = record {
  fields = λ name. if str_eq name "name" then some "Remera" else none;
  subcategory = none;
  subcategory_id = none;
  images = none;
  upper_images = some ("a.png" ∷ []);
  variants = some (a_variant ∷ []);
}
