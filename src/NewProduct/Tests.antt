-- ===== src/NewProduct/Tests.antt =====
-- Runs of front/src/app/admin/productos/nuevo/page.tsx, and its theorems at concrete inputs. Prices are
-- natural numbers.
use go_moda_mayor.Net.{Reply, refused, accepted}
use go_moda_mayor.Prelude.{
  ℕ, ◌≡◌, ◌<◌, refl, Bool, true, false, ◌&&◌, Option, none, some, List, [], ◌∷◌, ◌++◌, String, ◌==◌,
  if◌then◌else◌, str_eq, All, arith,
}
use go_moda_mayor.NewProduct.{
  Fields, Wizard, missing, save_wizard_state, mount, click_continue, has_significant_data,
}
use go_moda_mayor.NewProduct.Draft.{empty_fields, opened, IsPlain, mount-save_wizard_state}
use go_moda_mayor.NewProduct.Variants.{Color, MadeVariant, Maker, Stocks}
use go_moda_mayor.NewProduct.Create.{SizeType, Creator, handle_submit, has_variants, product_post}
use go_moda_mayor.NewProduct.Create.Step.{handle_submit_lem}
use go_moda_mayor.NewProduct.Stocks.{same_id, put_stock, stocks_payload}
use go_moda_mayor.NewProduct.Stocks.Payload.{IsKeyed, posted_at}
use go_moda_mayor.NewProduct.Stocks.Payload.Typed.{posted_at-put_stock}

abbrev is_zero : ℕ → Bool
is_zero n = n == 0

abbrev shirt : Fields ℕ
shirt = record (empty_fields 0) {
  name = "Remera";
  price = some 900;
  selected_colors = "unico" ∷ [];
  selected_size_type = "unico";
}

abbrev wizard : Wizard ℕ
wizard = record {
  fields = shirt;
  storage = missing;
  saved_state = none;
  show_recovery_modal = false;
}

shirt-IsPlain : IsPlain is_zero 0 shirt
shirt-IsPlain = record {
  started = omega arith;
  priced = refl;
  dated = refl;
  stocked = refl;
  kind = refl;
  discounted = λ _. refl;
  created = refl;
}

mount-save_wizard_state_example :
    let t = mount is_zero 0 5000 (opened 0 (save_wizard_state 1000 wizard).storage) in
    (t.show_recovery_modal ≡ true) × ((click_continue is_zero 0 t).fields ≡ shirt)
unfolding has_significant_data
mount-save_wizard_state_example =
    mount-save_wizard_state is_zero 0 wizard 1000 5000 shirt-IsPlain refl (omega arith)

abbrev red : List Color
red = record { id = 3; key = some "rojo"; name = some "Rojo"; hex = some "#FF0000" } ∷ []

abbrev maker : Maker
maker = record {
  created_product_id = some 8;
  colors = red;
  selected_colors = "rojo" ∷ [];
  selected_sizes = "M" ∷ "L" ∷ [];
  sku_prefix = "REM";
  selected_combinations = "rojo-M" ∷ "rojo-L" ∷ [];
  show_manual_modal = true;
  variants = [];
  stocks = [];
  step = 2;
  error = none;
  success = none;
  alerts = [];
  posted = [];
  generated = [];
}

abbrev first_only : ℕ → Reply MadeVariant
first_only i =
    if i == 0
    then accepted
        (record { id = some 11; color = "Rojo"; size = some "M"; color_key = ""; color_hex = "" })
    else refused 409 none

abbrev single : SizeType
single = record {
  id = record { upper = none; lower = some 4 };
  key = some "unico";
  name = some "Talle único";
}

abbrev creator : Creator ℕ
creator = record {
  fields = shirt;
  size_types = single ∷ [];
  images = 0;
  error = none;
  success = none;
  posted = [];
}

abbrev number : String → Option ℕ
number t = if str_eq t "4" then some 4 else none

handle_submit_lem_example :
    let t =
      handle_submit number
        (λ s. s)
        0
        (accepted (record { upper = some 8; lower = none }))
        true
        creator in
    let post = product_post number 0 (single ∷ []) shirt in
    (t.posted ≡ [] ++ (post ∷ []))
    × (t.fields.created_product_id ≡ some 8)
    × (t.fields.step
        ≡ (if has_variants number (λ s. s) (single ∷ []) "unico" ("unico" ∷ []) then 2 else 4))
    × (t.fields.step ≡ 4 → str_eq post.variant_type "sin_variantes" ≡ false)
handle_submit_lem_example =
    handle_submit_lem number (λ s. s) 0 (record { upper = some 8; lower = none }) 7 true creator
      refl

abbrev counted : Stocks
counted =
    (some 11, ("deposito", 0) ∷ ("salta", 2) ∷ [])
    ∷ (some 12, ("deposito", 5) ∷ ("salta", 0) ∷ [])
    ∷ []

posted_at-put_stock_example :
    IsKeyed (put_stock (some 12) "salta" 7 counted)
    × All (λ r. 0 < r.quantity) (stocks_payload (put_stock (some 12) "salta" 7 counted))
    × ((u : Option ℕ) (q : String)
        → posted_at u q (stocks_payload (put_stock (some 12) "salta" 7 counted)) ≡ (
            if same_id (some 12) u && str_eq "salta" q
            then 7
            else posted_at u q (stocks_payload counted)))
posted_at-put_stock_example =
    posted_at-put_stock (some 12) "salta" 7 counted
      ((refl, tt), ((refl, tt), (tt, tt)), (tt, ((refl, tt), (tt, tt)), tt))
