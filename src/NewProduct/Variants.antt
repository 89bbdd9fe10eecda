-- ===== src/NewProduct/Variants.antt =====
-- The second step of front/src/app/admin/productos/nuevo/page.tsx: the variants, which the server
-- generates, or which are chosen one by one. `toUpperCase` is a parameter.
pub mod Combos
pub mod Confirm
use go_moda_mayor.Net.{Reply, failed, refused, garbled, accepted}
use go_moda_mayor.Prelude.{
  ℕ, zero, suc, Bool, true, false, ◌||◌, Option, none, some, List, [], ◌∷◌, ◌++◌, map, String, ◌==◌,
  if◌then◌else◌, find, length, str_eq, text_or, get_or, concat,
}
use go_moda_mayor.Prelude.Decimal.{show_ℕ}
use go_moda_mayor.Prelude.Split.{split}
use go_moda_mayor.NewProduct.Colors.{has, toggle}

pub record Color : Type 0 where
  pub id : ℕ
  pub key : Option String
  pub name : Option String
  pub hex : Option String

-- A variant as it is posted.
pub record NewVariant : Type 0 where
  pub color : String
  pub size : Option String
  pub sku : String
  pub color_key : String
  pub color_hex : String

-- A variant as the server has made it, with what the page adds.
pub record MadeVariant : Type 0 where
  pub id : Option ℕ
  pub color : String
  pub size : Option String
  pub color_key : String
  pub color_hex : String

-- The stocks: for each variant, `none` if its identifier is undefined, the quantities at the places.
abbrev pub Stocks : Type 0
Stocks = List (Option ℕ × List (String × ℕ))

-- The page in its second and third step. `posted` are the variants that were posted.
pub record Maker : Type 0 where
  pub created_product_id : Option ℕ
  pub colors : List Color
  pub selected_colors : List String
  pub selected_sizes : List String
  pub sku_prefix : String
  pub selected_combinations : List String
  pub show_manual_modal : Bool
  pub variants : List MadeVariant
  pub stocks : Stocks
  pub step : ℕ
  pub error : Option String
  pub success : Option String
  pub alerts : List String
  pub posted : List NewVariant
  -- The colours and sizes for which the generation was asked for.
  pub generated : List (List String × List String)

abbrev pub locations : List String
locations = "deposito" ∷ "mendoza" ∷ "salta" ∷ []

abbrev no_stock : MadeVariant → Option ℕ × List (String × ℕ)
no_stock v = (v.id, map (λ loc. (loc, 0)) locations)

abbrev pub is_empty : List String → Bool
is_empty [] = true
is_empty (x ∷ xs) = false

abbrev is_text : Option String → String → Bool
is_text none t = false
is_text (some s) t = str_eq s t

abbrev pub color_of : List Color → String → Option Color
color_of colors key = find (λ c. is_text c.key key) colors

abbrev name_of : Option Color → String → String
name_of none key = key
name_of (some c) key = text_or c.name key

abbrev hex_of : Option Color → String
hex_of none = "#ccc"
hex_of (some c) = text_or c.hex "#ccc"

-- Texts of the colours and sizes: `${colorKey}-${size}`.
abbrev pub combo_of : String → String → String
combo_of key size = concat (key ∷ "-" ∷ size ∷ [])

sizes_with : List String → String → List String
sizes_with sizes key = map (combo_of key) sizes

pub all_combinations : List String → List String → List String
unfolding sizes_with
all_combinations [] sizes = []
all_combinations (key ∷ keys) sizes = sizes_with sizes key ++ all_combinations keys sizes

-- `new Set(xs)`, in the order of insertion.
pub to_set : List String → List String → List String
to_set seen [] = seen
to_set seen (x ∷ xs) = to_set (if has x seen then seen else seen ++ (x ∷ [])) xs

pub handle_manual_variants : Maker → Maker
unfolding all_combinations to_set
handle_manual_variants s =
    if is_empty s.selected_colors || is_empty s.selected_sizes
    then record s { alerts = s.alerts ++ ("Debes seleccionar al menos un color y un talle" ∷ []) }
    else record s {
      selected_combinations = to_set [] (all_combinations s.selected_colors s.selected_sizes);
      show_manual_modal = true;
    }

pub toggle_combination : String → Maker → Maker
toggle_combination combo s = record s {
  selected_combinations = toggle combo s.selected_combinations;
}

pub toggle_all_combinations : Maker → Maker
unfolding all_combinations to_set
toggle_all_combinations s =
    let all = all_combinations s.selected_colors s.selected_sizes in
    if length s.selected_combinations == length all
    then record s { selected_combinations = [] }
    else record s { selected_combinations = to_set [] all }

-- `const [colorKey, size] = combo.split('-')`
key_of : List String → String
key_of [] = ""
key_of (key ∷ rest) = key

size_of : List String → Option String
size_of [] = none
size_of (key ∷ []) = none
size_of (key ∷ size ∷ rest) = some size

abbrev made_with : NewVariant → MadeVariant → MadeVariant
made_with v m = record m { color_key = v.color_key; color_hex = v.color_hex }

-- The variants made, those posted, and the message of the post that failed, if one did.
abbrev Progress : Type 0
Progress = List MadeVariant × List NewVariant × Option String

-- One round of the loop, with what the rounds after it come to.
after_post : NewVariant → Reply MadeVariant → Progress → Progress
after_post v (failed m) rest = ([], v ∷ [], some m)
after_post v (refused status e) rest =
    ([], v ∷ [], some (concat ("Error creando variante " ∷ v.sku ∷ [])))
after_post v (garbled m) rest = ([], v ∷ [], some m)
after_post v (accepted m) (made, sent, failure) = (made_with v m ∷ made, v ∷ sent, failure)

-- The answers to the posts are given by their number.
create_loop : (ℕ → Reply MadeVariant) → ℕ → List NewVariant → Progress
unfolding after_post
create_loop replies i [] = ([], [], none)
create_loop replies i (v ∷ vs) = after_post v (replies i) (create_loop replies (suc i) vs)

finish_making : Progress → Maker → Maker
finish_making (made, sent, none) s = record s {
  posted = s.posted ++ sent;
  variants = made;
  stocks = map no_stock made;
  show_manual_modal = false;
  step = 3;
  success = some (concat (show_ℕ (length made) ∷ " variantes creadas exitosamente" ∷ []));
}
finish_making (made, sent, some m) s = record s {
  posted = s.posted ++ sent;
  error = some (concat ("Error creando variantes: " ∷ m ∷ []));
}

module _ (to_upper_case : String → String) where
  pub variant_of : List Color → String → String → NewVariant
  unfolding key_of size_of
  variant_of colors prefix combo =
      let parts = split "-" combo in
      let key = key_of parts in
      let size = size_of parts in
      record {
        color = name_of (color_of colors key) key;
        size = size;
        sku = to_upper_case (concat (prefix ∷ "-" ∷ key ∷ "-" ∷ get_or size "undefined" ∷ []));
        color_key = key;
        color_hex = hex_of (color_of colors key);
      }

  abbrev pub chosen_variants : Maker → List NewVariant
  chosen_variants s = map (variant_of s.colors s.sku_prefix) s.selected_combinations

  pub handle_confirm_manual_variants : (ℕ → Reply MadeVariant) → Maker → Maker
  unfolding create_loop finish_making
  handle_confirm_manual_variants replies s =
      if is_empty s.selected_combinations
      then record s { alerts = s.alerts ++ ("Debes seleccionar al menos una combinación" ∷ []) }
      else finish_making (create_loop replies 0 (chosen_variants s)) s

-- The answer to the generation: the variants made, and how many were skipped.
pub record Generated : Type 0 where
  pub created : Option (List MadeVariant)
  pub skipped : Option ℕ

abbrev key_or : Option Color → String → String
key_or none t = t
key_or (some c) t = text_or c.key t

-- The variant with the key and the hue of its colour, which is found by its name or its key.
enriched : List Color → MadeVariant → MadeVariant
enriched colors v =
    let found = find (λ c. is_text c.name v.color || is_text c.key v.color) colors in
    record v { color_key = key_or found v.color; color_hex = hex_of found }

abbrev any_key : Color → String
any_key c = get_or c.key (show_ℕ c.id)

-- `selectedColors`, or all colours if there are none.
abbrev pub color_keys : Maker → List String
color_keys s = if is_empty s.selected_colors then map any_key s.colors else s.selected_colors

after_generate : Reply Generated → Maker → Maker
unfolding enriched
after_generate (failed m) s = record s { error = some m }
after_generate (refused status e) s = record s {
  error = some (text_or e "Error generando variantes");
}
after_generate (garbled m) s = record s { error = some m }
after_generate (accepted g) s =
    let made = map (enriched s.colors) (get_or g.created []) in
    record s {
      variants = made;
      success = some (
          concat (
            "Se crearon "
            ∷ show_ℕ (length made)
            ∷ " variantes, saltadas: "
            ∷ show_ℕ (get_or g.skipped 0)
            ∷ []));
      step = 3;
      stocks = map no_stock made;
    }

generate_for : Option ℕ → Reply Generated → Maker → Maker
unfolding after_generate
generate_for none reply s = record s { error = some "Producto no creado" }
generate_for (some zero) reply s = record s { error = some "Producto no creado" }
generate_for (some (suc n)) reply s = after_generate reply (record s {
  error = none;
  success = none;
  generated = s.generated ++ ((color_keys s, s.selected_sizes) ∷ []);
})

pub handle_generate_variants : Reply Generated → Maker → Maker
unfolding generate_for
handle_generate_variants reply s = generate_for s.created_product_id reply s
