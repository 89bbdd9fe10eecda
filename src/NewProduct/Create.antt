-- ===== src/NewProduct/Create.antt =====
-- The first step of front/src/app/admin/productos/nuevo/page.tsx: the product is posted, its images are
-- uploaded, and the next step is chosen. `Number` of a text is a parameter, none where it is NaN or no
-- natural number, and so is `toLowerCase`.
pub mod Step
use text.Mathlib.Text.{find?}
use go_moda_mayor.Net.{Reply, failed, refused, garbled, accepted}
use go_moda_mayor.Orders.{Spelled}
use go_moda_mayor.Prelude.{
  ℕ, zero, suc, Bool, true, false, not, ◌&&◌, ◌||◌, Option, none, some, List, [], ◌∷◌, ◌++◌, String,
  ◌==◌, if◌then◌else◌, find, str_eq, truthy, get_or, or_else, is_some,
}
use go_moda_mayor.Prelude.Decimal.{show_ℕ}
use go_moda_mayor.NewProduct.{Fields, nonzero, is_empty}

pub record SizeType : Type 0 where
  pub id : Spelled ℕ
  pub key : Option String
  pub name : Option String

-- The product as it is posted; what is undefined is `none`.
pub record ProductPost (F : Type 0) : Type 0 where
  pub name : String
  pub description : String
  pub cost_price : Option F
  pub sku : String
  pub category_id : Option ℕ
  pub subcategory_id : Option ℕ
  pub image_url : Option String
  pub supplier_id : Option ℕ
  pub season_id : Option ℕ
  pub year : Option ℕ
  pub size_type_id : Option ℕ
  pub total_stock : Option ℕ
  pub colors : List String
  pub variant_type : String
  pub discount_type : String
  pub discount_value : F
  pub is_new_arrival : Bool
  pub is_featured : Bool
  pub is_offer : Bool
  pub is_trending : Bool

-- The page in its first step, with the number of its images and the products posted.
pub record Creator (F : Type 0) : Type 0 where
  pub fields : Fields F
  pub size_types : List SizeType
  pub images : ℕ
  pub error : Option String
  pub success : Option String
  pub posted : List (ProductPost F)

abbrev is_text : Option String → String → Bool
is_text none t = false
is_text (some s) t = str_eq s t

abbrev is_id : Option ℕ → Option ℕ → Bool
is_id none n = false
is_id (some i) none = false
is_id (some i) (some n) = i == n

-- `String(id) === text`
abbrev reads_id : Option ℕ → String → Bool
reads_id none t = str_eq "undefined" t
reads_id (some i) t = str_eq (show_ℕ i) t

abbrev key_of : Option SizeType → Option String
key_of none = none
key_of (some t) = t.key

abbrev name_of : Option SizeType → Option String
name_of none = none
name_of (some t) = t.name

abbrev id_of : Option SizeType → Option ℕ
id_of none = none
id_of (some t) = t.id.lower

-- `(st.id && String(st.id) === selected) || st.key === selected`
abbrev resolves : String → SizeType → Bool
resolves selected t =
    (is_some (nonzero t.id.lower) && reads_id t.id.lower selected) || is_text t.key selected

module _ (to_number : String → Option ℕ) where
  -- The identifier and the key of the type of size that is posted.
  by_number : Option ℕ → String → List SizeType → Option ℕ × Option String
  by_number (some (suc n)) selected types =
      (some (suc n), key_of (find (λ t. is_id t.id.lower (some (suc n))) types))
  by_number (some zero) selected types =
      let found = find (resolves selected) types in (id_of found, key_of found)
  by_number none selected types =
      let found = find (resolves selected) types in (id_of found, key_of found)

  pub size_type_of : String → List SizeType → Option ℕ × Option String
  unfolding by_number
  size_type_of selected types =
      if str_eq selected "" then (none, none) else by_number (to_number selected) selected types

  has_size_variants : Option String → Bool
  has_size_variants none = false
  has_size_variants (some key) = not (str_eq key "") && not (str_eq key "unico")

  pub variant_type_of : Option String → List String → String
  unfolding has_size_variants
  variant_type_of key colors =
      if has_size_variants key && not (is_empty colors)
      then "ambos"
      else if has_size_variants key
      then "talle_unico"
      else if not (is_empty colors)
      then "color_surtido"
      else "sin_variantes"

  abbrev number_or_none : String → Option ℕ
  number_or_none t = if str_eq t "" then none else to_number t

  abbrev text_or_none : String → Option String
  text_or_none t = if str_eq t "" then none else some t

  pub product_post : {F : Type 0} → F → List SizeType → Fields F → ProductPost F
  unfolding size_type_of variant_type_of
  product_post nought types f =
      let (size_type_id, size_type_key) = size_type_of f.selected_size_type types in
      record {
        name = f.name;
        description = f.description;
        cost_price = f.price;
        sku = f.sku;
        category_id = to_number f.category_id;
        subcategory_id = number_or_none f.subcategory_id;
        image_url = text_or_none f.image_url;
        supplier_id = number_or_none f.selected_supplier_id;
        season_id = number_or_none f.selected_season_id;
        year = nonzero f.year;
        size_type_id = size_type_id;
        total_stock = f.total_stock;
        colors = f.selected_colors;
        variant_type = variant_type_of size_type_key f.selected_colors;
        discount_type = f.discount_type;
        discount_value = if str_eq f.discount_type "none" then nought else f.discount_value;
        is_new_arrival = f.is_new_arrival;
        is_featured = f.is_featured;
        is_offer = f.is_offer;
        is_trending = f.is_trending;
      }

  module _ (to_lower_case : String → String) where
    abbrev mentions : Option String → String → Bool
    mentions none t = false
    mentions (some s) t = is_some (find? (to_lower_case s) t)

    -- The type of size that is chosen, as the choice of the next step looks it up.
    abbrev is_chosen : String → SizeType → Bool
    is_chosen selected t =
        is_id t.id.upper (to_number selected)
        || is_id t.id.lower (to_number selected)
        || reads_id t.id.upper selected
        || reads_id t.id.lower selected
        || is_text t.key selected

    is_single_size : Option SizeType → Bool
    is_single_size found =
        is_text (key_of found) "unico"
        || mentions (name_of found) "único"
        || mentions (name_of found) "sin variantes"

    abbrev pub is_no_color : List String → Bool
    is_no_color [] = false
    is_no_color (c ∷ []) = str_eq c "unico"
    is_no_color (c ∷ d ∷ cs) = false

    pub has_variants : List SizeType → String → List String → Bool
    unfolding is_single_size
    has_variants types selected colors =
        not (is_single_size (find (is_chosen selected) types) && is_no_color colors)

    -- The message after the upload of the images, which succeeds or not.
    uploaded : ℕ → String → Bool → String
    uploaded zero url ok =
        if str_eq url ""
        then "Producto creado (sin imagen). Puedes agregar imágenes después."
        else "Producto creado exitosamente"
    uploaded (suc n) url true = "Producto e imagen principal creados exitosamente"
    uploaded (suc n) url false = "Producto creado (error al subir imagen)"

    -- The form is emptied, but for the colours, the sizes and what follows them.
    emptied : {F : Type 0} → Fields F → Fields F
    emptied f = record f {
      name = "";
      description = "";
      price = none;
      sku = "";
      category_id = "";
      subcategory_id = "";
      image_url = "";
    }

    next_step : {F : Type 0} → Option ℕ → Bool → Creator F → Creator F
    unfolding uploaded
    next_step none ok s = record s { success = some "Producto creado exitosamente" }
    next_step (some zero) ok s = record s { success = some "Producto creado exitosamente" }
    next_step (some (suc n)) ok s = record s {
      success = some (uploaded s.images s.fields.image_url ok);
      fields = record s.fields {
        created_product_id = some (suc n);
        step =
            if has_variants s.size_types s.fields.selected_size_type s.fields.selected_colors
            then 2
            else 4;
      };
    }

    -- The answer has the identifier under one of its names.
    after_post : {F : Type 0} → Reply (Spelled ℕ) → Bool → Creator F → Creator F
    unfolding next_step emptied
    after_post (failed m) ok s = record s { error = some m }
    after_post (refused status e) ok s = record s { error = some "No se pudo crear el producto" }
    after_post (garbled m) ok s = record s { error = some m }
    after_post (accepted i) ok s =
        let t = next_step (or_else i.lower i.upper) ok s in record t { fields = emptied t.fields }

    pub handle_submit : {F : Type 0} → F → Reply (Spelled ℕ) → Bool → Creator F → Creator F
    unfolding after_post
    handle_submit nought reply ok s = after_post reply ok (record s {
      error = none;
      success = none;
      posted = s.posted ++ (product_post nought s.size_types s.fields ∷ []);
    })
