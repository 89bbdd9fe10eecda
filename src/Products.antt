-- ===== src/Products.antt =====
-- The products of front/src/utils/api.ts: the shape that the client gives them, and the requests for
-- them. A JSON object is a function from the names of its properties, where `none` is undefined or
-- null.
pub mod Paged
mod Tests
use go_moda_mayor.Prelude.{
  ℕ, Bool, true, false, Option, none, some, List, [], ◌∷◌, ◌++◌, map, String, if◌then◌else◌, length,
  str_eq, truthy, or_else, get_or, concat,
}
use go_moda_mayor.Prelude.Decimal.{show_ℕ}
use go_moda_mayor.Orders.{Result, ok, thrown, Response, rejected, bad, unreadable, good}

abbrev pub Fields : Type 0 → Type 0
Fields V = String → Option V

module _ {V : Type 0} where
  -- `v.a ?? v.b ?? ...`
  abbrev pub first_of : Fields V → List String → Option V
  first_of v [] = none
  first_of v (k ∷ ks) = or_else (v k) (first_of v ks)

  -- `v.k = x`
  abbrev pub set : String → Option V → Fields V → Fields V
  set k x v name = if str_eq name k then x else v name

  unfoldable pub normalize_variant : Fields V → Fields V
  normalize_variant v =
      let color =
        first_of v
          ("color" ∷ "Color" ∷ "color_name" ∷ "ColorName" ∷ "colorName" ∷ "color_name" ∷ []) in
      let size = first_of v (
        "size" ∷ "Size" ∷ "size_name" ∷ "SizeName" ∷ "sizeName" ∷ "name" ∷ "talle" ∷ "Talle"
        ∷ []) in
      let image_url =
        first_of v ("image_url" ∷ "ImageURL" ∷ "image" ∷ "Image" ∷ "imageUrl" ∷ "ImageUrl" ∷ []) in
      set "id" (first_of v ("id" ∷ "ID" ∷ [])) (
        set "ID" (first_of v ("ID" ∷ "id" ∷ []))
          (set "image_url" image_url (set "size" size (set "color" color v))))

-- A subcategory: an object, or a text or number, by its text.
pub data RawSubcategory (V : Type 0) : Type 0 where
  object : Fields V → RawSubcategory V
  primitive : String → RawSubcategory V

pub data Subcategory (V : Type 0) : Type 0 where
  kept : Fields V → Subcategory V
  named : String → Subcategory V

-- An array is `none` if the property is no array.
pub record RawProduct (V : Type 0) : Type 0 where
  pub fields : Fields V
  pub subcategory : Option (RawSubcategory V)
  pub subcategory_id : Option (RawSubcategory V)
  pub images : Option (List V)
  pub upper_images : Option (List V)
  pub variants : Option (List (Fields V))

pub record Product (V : Type 0) : Type 0 where
  pub fields : Fields V
  pub subcategory : Option (Subcategory V)
  pub images : List V
  pub variants : List (Fields V)

module _ {V : Type 0} where
  normalize_subcategory : Option (RawSubcategory V) → Option (Subcategory V)
  normalize_subcategory none = none
  normalize_subcategory (some (object fields)) = some (kept fields)
  normalize_subcategory (some (primitive text)) = some (named text)

  -- `category` keeps its value, as null and undefined are one here.
  pub normalize_product : RawProduct V → Product V
  unfolding normalize_subcategory normalize_variant
  normalize_product p = record {
    fields =
        set "image_url"
          (first_of p.fields
            ("image_url" ∷ "ImageURL" ∷ "image" ∷ "imageUrl" ∷ "ImageUrl" ∷ "image_url" ∷ []))
          p.fields;
    subcategory = normalize_subcategory (or_else p.subcategory p.subcategory_id);
    images = get_or (or_else p.images p.upper_images) [];
    variants = map normalize_variant (get_or p.variants []);
  }

-- The JSON of an answer: an array, an object with an array `items` and perhaps `total`, or another.
pub data Listing (V : Type 0) : Type 0 where
  array : List (RawProduct V) → Listing V
  page_of : List (RawProduct V) → Option ℕ → Listing V
  neither : Listing V

pub record PagedProducts (V : Type 0) : Type 0 where
  pub items : List (Product V)
  pub total : Option ℕ

-- The options of a paged request.
pub record PageOptions : Type 0 where
  pub search : Option String
  pub page : Option ℕ
  pub limit : Option ℕ
  pub category : Option ℕ
  pub subcategory : Option ℕ

abbrev number_param : String → Option ℕ → List (String × String)
number_param name none = []
number_param name (some n) = (name, show_ℕ n) ∷ []

-- The parameters of the paged URL, in order.
pub page_params : PageOptions → List (String × String)
page_params o =
    (if truthy o.search then ("search", get_or o.search "") ∷ [] else [])
    ++ number_param "category" o.category
    ++ number_param "subcategory" o.subcategory
    ++ number_param "page" (some (get_or o.page 1))
    ++ number_param "limit" (some (get_or o.limit 25))

module _ {V : Type 0} where
  products_of : Listing V → List (Product V)
  products_of (array ps) = map normalize_product ps
  products_of (page_of ps total) = map normalize_product ps
  products_of neither = []

  pub fetch_products : Response (Listing V) → Result (List (Product V))
  unfolding products_of
  fetch_products (rejected m) = thrown m
  fetch_products (bad status status_text body) = thrown "Error al obtener productos"
  fetch_products (unreadable m) = thrown m
  fetch_products (good listing) = ok (products_of listing)

  -- `{ items, total: items.length }` of a fallback.
  abbrev pub whole : Result (List (Product V)) → Result (PagedProducts V)
  whole (thrown m) = thrown m
  whole (ok items) = ok (record { items = items; total = some (length items) })

  -- The fallback within `try`: if it throws too, `catch` fetches once more.
  retry : Result (List (Product V)) → Response (Listing V) → Result (PagedProducts V)
  retry (thrown m) third = whole (fetch_products third)
  retry (ok items) third = whole (ok items)

  read_page : Listing V → Response (Listing V) → Response (Listing V) → Result (PagedProducts V)
  unfolding retry
  read_page (array ps) second third = ok (record { items = map normalize_product ps; total = none })
  read_page (page_of ps total) second third =
      ok (record { items = map normalize_product ps; total = total })
  read_page neither second third = retry (fetch_products second) third

  -- The answers are those to the paged request and to the full ones that may follow it.
  pub fetch_products_paged :
      Response (Listing V) → Response (Listing V) → Response (Listing V) → Result (PagedProducts V)
  unfolding read_page
  fetch_products_paged (good listing) second third = read_page listing second third
  fetch_products_paged first second third = whole (fetch_products second)

-- `fetchProductById`, whose argument may be undefined.
pub fetch_product_by_id :
    {V : Type 0} → Option String → Response (RawProduct V) → Result (Product V)
fetch_product_by_id none response = thrown "ID de producto inválido"
fetch_product_by_id (some id) (rejected m) = thrown m
fetch_product_by_id (some id) (bad status status_text body) = thrown "Error al obtener el producto"
fetch_product_by_id (some id) (unreadable m) = thrown m
fetch_product_by_id (some id) (good p) = ok (normalize_product p)
