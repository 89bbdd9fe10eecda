-- ===== src/Catalog/Url.antt =====
-- The filters of front/src/app/productos/ProductosClient.tsx in the page's URL.
pub mod Roundtrip
use go_moda_mayor.Prelude.{
  ℕ, Bool, true, false, not, ◌&&◌, ◌==◌, ◌≡◌, Option, none, some, List, [], ◌∷◌, ◌++◌, String,
  if◌then◌else◌, keep, str_eq, truthy, get_or,
}
use go_moda_mayor.Prelude.Split.{split, join}
use go_moda_mayor.Catalog.{Filters}

-- The browser's `URLSearchParams`, as far as the page uses it.
pub record Params (P : Type 0) : Type 0 where
  pub get : String → P → Option String
  pub set : String → String → P → P
  pub delete : String → P → P

-- What its documentation says: a name that is set or deleted is so read, and no other changes.
pub record IsParams (P : Type 0) (r : Params P) : Type 0 where
  pub get-set :
      (k j v : String) (p : P) → r.get k (r.set j v p) ≡ (if str_eq j k then some v else r.get k p)
  pub get-delete :
      (k j : String) (p : P) → r.get k (r.delete j p) ≡ (if str_eq j k then none else r.get k p)

-- A value given to `updateUrlParams`: undefined or null, a text (a number is given by its text), or an
-- array.
pub data ParamValue : Type 0 where
  nothing : ParamValue
  text : String → ParamValue
  texts : List String → ParamValue

-- What the page keeps of the URL.
pub record UrlState (F : Type 0) : Type 0 where
  pub filters : Filters F
  pub search : String
  pub page : ℕ

-- What the effect that follows the category and the subcategory leaves, once it has run.
abbrev clear_options : {F : Type 0} → UrlState F → UrlState F
clear_options u = record u { filters = record u.filters { colors = []; sizes = [] } }

abbrev pub same_id : Option ℕ → Option ℕ → Bool
same_id none none = true
same_id none (some n) = false
same_id (some m) none = false
same_id (some m) (some n) = m == n

module _ {P : Type 0} ⦃r : Params P⦄ where
  open r use {get, set, delete}

  update_param : String → ParamValue → P → P
  update_param key nothing p = delete key p
  update_param key (text t) p = if str_eq t "" then delete key p else set key t p
  update_param key (texts []) p = delete key p
  update_param key (texts (t ∷ ts)) p = set key (join "," (t ∷ ts)) p

  pub update_url_params : List (String × ParamValue) → P → P
  unfolding update_param
  update_url_params [] p = p
  update_url_params ((key, value) ∷ params) p = update_url_params params (update_param key value p)

  -- `(searchParams?.get(key) ?? "").toString()`
  abbrev pub param : String → P → String
  param key p = get_or (get key p) ""

  -- `s ? Number(s) : undefined`
  abbrev pub number_param : {A : Type 0} → (String → A) → String → P → Option A
  number_param to_number key p =
      if truthy (some (param key p)) then some (to_number (param key p)) else none

  -- `s ? s.split(",") : []`
  abbrev pub list_param : String → P → List String
  list_param key p = if truthy (some (param key p)) then split "," (param key p) else []

  -- The effect that follows the URL; `to_id` and `to_number` are the language's `Number`.
  pub read_url : {F : Type 0} → (String → ℕ) → (String → F) → P → UrlState F
  read_url to_id to_number p = record {
    filters = record {
      category = number_param to_id "category" p;
      subcategory = number_param to_id "subcategory" p;
      colors = list_param "colors" p;
      sizes = list_param "sizes" p;
      min_price = number_param to_number "minPrice" p;
      max_price = number_param to_number "maxPrice" p;
    };
    search = param "search" p;
    page = 1;
  }

  -- The page is opened at a URL: on the first rendering both effects run.
  pub open_url : {F : Type 0} → (String → ℕ) → (String → F) → P → UrlState F
  open_url to_id to_number p = clear_options (read_url to_id to_number p)

  -- The URL changes: the second effect runs if the category or the subcategory changed.
  pub follow_url : {F : Type 0} → (String → ℕ) → (String → F) → UrlState F → P → UrlState F
  follow_url to_id to_number old p =
      let new = read_url to_id to_number p in
      if same_id old.filters.category new.filters.category
        && same_id old.filters.subcategory new.filters.subcategory
      then new
      else clear_options new

  -- A tick at a colour, and its removal.
  pub check_color : Bool → String → List String → P → P
  check_color true color selected p =
      update_url_params (("colors", texts (selected ++ (color ∷ []))) ∷ []) p
  check_color false color selected p =
      update_url_params (("colors", texts (keep (λ c. not (str_eq c color)) selected)) ∷ []) p

  pub check_size : Bool → String → List String → P → P
  check_size true size selected p =
      update_url_params (("sizes", texts (selected ++ (size ∷ []))) ∷ []) p
  check_size false size selected p =
      update_url_params (("sizes", texts (keep (λ s. not (str_eq s size)) selected)) ∷ []) p

  -- The button `Limpiar`.
  pub clear_filters : P → P
  clear_filters p =
      update_url_params
        (("category", nothing)
          ∷ ("subcategory", nothing)
          ∷ ("colors", nothing)
          ∷ ("sizes", nothing)
          ∷ ("minPrice", nothing)
          ∷ ("maxPrice", nothing)
          ∷ [])
        p
