-- ===== src/NewProduct.antt =====
-- front/src/app/admin/productos/nuevo/page.tsx: the wizard for a new product. Here are its fields, the
-- draft that it keeps in the storage of the browser, the images and the colours. What JSON writes of a
-- draft is kept as the draft itself, and the times are numbers of milliseconds.
pub mod Draft
pub mod Colors
pub mod Variants
pub mod Create
pub mod Stocks
mod Tests
use go_moda_mayor.Prelude.{
  ℕ, zero, suc, ◌+◌, ◌-◌, ◌*◌, Bool, true, false, not, ◌||◌, Option, none, some, List, [], ◌∷◌,
  ◌++◌, String, ◌==◌, ltb, if◌then◌else◌, any, keep, take, length, str_eq, is_some,
}

-- The fields that are saved. A number is `none` if it is "".
pub record Fields (F : Type 0) : Type 0 where
  pub step : ℕ
  pub name : String
  pub description : String
  pub price : Option F
  pub sku : String
  pub category_id : String
  pub subcategory_id : String
  pub image_url : String
  pub selected_colors : List String
  pub selected_size_type : String
  pub selected_supplier_id : String
  pub selected_season_id : String
  pub year : Option ℕ
  pub total_stock : Option ℕ
  pub discount_type : String
  pub discount_value : F
  pub is_new_arrival : Bool
  pub is_featured : Bool
  pub is_offer : Bool
  pub is_trending : Bool
  pub created_product_id : Option ℕ
  pub selected_sizes : List String
  pub sku_prefix : String

-- The item `productWizardState` of the storage: it may be missing or no JSON.
pub data Saved (F : Type 0) : Type 0 where
  missing broken : Saved F
  holds : Fields F → ℕ → Saved F

-- The fields with the item of the storage, the draft that may be taken up again, and whether the
-- window that asks for it is open.
pub record Wizard (F : Type 0) : Type 0 where
  pub fields : Fields F
  pub storage : Saved F
  pub saved_state : Option (Fields F)
  pub show_recovery_modal : Bool

abbrev pub day : ℕ
day = 24 * 60 * 60 * 1000

abbrev pub is_empty : {A : Type 0} → List A → Bool
is_empty [] = true
is_empty (x ∷ xs) = false

module _ {F : Type 0} where
  pub save_wizard_state : ℕ → Wizard F → Wizard F
  save_wizard_state now s = record s { storage = holds s.fields now }

  pub clear_wizard_state : Wizard F → Wizard F
  clear_wizard_state s = record s { storage = missing }

  -- The draft that is read, and the item as it is left.
  load_from : ℕ → Saved F → Option (Fields F) × Saved F
  load_from now missing = (none, missing)
  load_from now broken = (none, missing)
  load_from now (holds f saved) =
      if ltb day (now - saved) then (none, missing) else (some f, holds f saved)

-- `||` on a text, an identifier and a number.
abbrev text_or_default : String → String → String
text_or_default t d = if str_eq t "" then d else t

abbrev pub nonzero : Option ℕ → Option ℕ
nonzero none = none
nonzero (some zero) = none
nonzero (some (suc n)) = some (suc n)

-- `is_zero` says whether a price is falsy, and `nought` is 0.
module _ {F : Type 0} (is_zero : F → Bool) (nought : F) where
  abbrev price_or_none : Option F → Option F
  price_or_none none = none
  price_or_none (some p) = if is_zero p then none else some p

  abbrev step_or_one : ℕ → ℕ
  step_or_one zero = 1
  step_or_one (suc n) = suc n

  pub restored : Fields F → Fields F
  restored f = record f {
    step = step_or_one f.step;
    price = price_or_none f.price;
    year = nonzero f.year;
    total_stock = nonzero f.total_stock;
    discount_type = text_or_default f.discount_type "none";
    discount_value = if is_zero f.discount_value then nought else f.discount_value;
    created_product_id = nonzero f.created_product_id;
  }

  pub restore_wizard_state : Fields F → Wizard F → Wizard F
  unfolding restored
  restore_wizard_state f s = record s { fields = restored f }

  -- Whether the draft has something that is worth taking up.
  pub has_significant_data : Fields F → Bool
  has_significant_data f =
      not (str_eq f.name "")
      || not (str_eq f.description "")
      || is_some (price_or_none f.price)
      || not (str_eq f.category_id "")
      || not (is_empty f.selected_colors)
      || is_some (nonzero f.created_product_id)

  offer : Option (Fields F) → Wizard F → Wizard F
  unfolding has_significant_data
  offer none s = s
  offer (some f) s =
      if has_significant_data f
      then record s { saved_state = some f; show_recovery_modal = true }
      else clear_wizard_state s

  -- `if (step === 1 || createdProductId)`
  pub auto_save : ℕ → Wizard F → Wizard F
  auto_save now s =
      if s.fields.step == 1 || is_some (nonzero s.fields.created_product_id)
      then save_wizard_state now s
      else s

  -- The two effects that run when the page is mounted, in their order.
  pub mount : ℕ → Wizard F → Wizard F
  unfolding load_from offer
  mount now s =
      let (draft, left) = load_from now s.storage in
      auto_save now (offer draft (record s { storage = left }))

  continue_with : Option (Fields F) → Wizard F → Wizard F
  continue_with none s = record s { show_recovery_modal = false }
  continue_with (some f) s = record (restore_wizard_state f s) { show_recovery_modal = false }

  -- The two buttons of the window.
  pub click_continue : Wizard F → Wizard F
  unfolding continue_with
  click_continue s = continue_with s.saved_state s

  pub click_start_again : Wizard F → Wizard F
  click_start_again s = record (clear_wizard_state s) {
    saved_state = none;
    show_recovery_modal = false;
  }

-- The files of the images: three at most are taken. An alert says that there is no place left.
pub handle_image_files_change : {B : Type 0} → List B → List B × ℕ → List B × ℕ
handle_image_files_change files (chosen, alerts) =
    let added = take (3 - length chosen) files in
    if is_empty added then (chosen, alerts + 1) else (chosen ++ added, alerts)

-- `prev.filter((_, i) => i !== index)`
pub remove_image : {B : Type 0} → ℕ → List B → List B
remove_image i [] = []
remove_image zero (x ∷ xs) = xs
remove_image (suc i) (x ∷ xs) = x ∷ remove_image i xs
