-- ===== src/TierEditor/Tests.antt =====
-- The theorem on front/src/app/admin/configuracion/precios/page.tsx at a concrete input. Prices are
-- whole cents.
use go_moda_mayor.Prelude.{
  String, Option, ℕ, ◌≡◌, ◌<◌, true, false, none, some, [], ◌∷◌, ◌++◌, All, concat,
}
use go_moda_mayor.Prelude.Decimal.{show_ℕ}
use go_moda_mayor.Cents.{cent_amounts}
use go_moda_mayor.Pricing.{PriceTier, multiplier, failed}
use go_moda_mayor.TierEditor.{
  Editor, accepted, set_form_data, handle_save, open_create_modal, open_edit_modal,
}
use go_moda_mayor.TierEditor.Saved.{handle_save-open_modal}

abbrev tier : ℕ → PriceTier ℕ
tier n = record {
  id = n;
  name = "t";
  display_name = "T";
  formula_type = multiplier;
  multiplier = 3;
  percentage = 0;
  flat_amount = 0;
  min_quantity = 1;
  order_index = n;
  active = true;
  description = "";
  is_default = false;
  show_in_public = true;
  color_code = "";
}

abbrev editor : Editor ℕ
editor = record {
  price_tiers = tier 4 ∷ tier 2 ∷ [];
  loading = false;
  show_modal = false;
  editing_tier = none;
  form = tier 0;
  alerts = [];
  sent = [];
}

handle_save-open_modal_example :
    let created = open_create_modal editor in
    let post : String × String × Option (PriceTier ℕ) =
      ("POST", "/settings/price-tiers", some (tier 3)) in
    let put : String × String × Option (PriceTier ℕ) =
      ("PUT", concat ("/settings/price-tiers/" ∷ show_ℕ 2 ∷ []), some (tier 3)) in
    All (λ u. u.order_index < created.form.order_index) editor.price_tiers
    × ((handle_save accepted failed (set_form_data (tier 3) created)).sent ≡ [] ++ (post ∷ []))
    × ((handle_save accepted failed
          (set_form_data (tier 3) (open_edit_modal (tier 2) created))).sent
        ≡ [] ++ (put ∷ []))
    × ((handle_save accepted failed
          (set_form_data (tier 3) (open_create_modal (open_edit_modal (tier 2) editor)))).sent
        ≡ [] ++ (post ∷ []))
    × ((handle_save accepted failed (open_edit_modal (tier 2) created)).sent
        ≡ [] ++ (("PUT", concat ("/settings/price-tiers/" ∷ show_ℕ 2 ∷ []), some (tier 2)) ∷ []))
handle_save-open_modal_example = handle_save-open_modal accepted failed (tier 2) (tier 3) editor
