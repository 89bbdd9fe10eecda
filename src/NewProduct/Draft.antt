-- ===== src/NewProduct/Draft.antt =====
-- The draft of front/src/app/admin/productos/nuevo/page.tsx: saved, and taken up again.
use go_moda_mayor.Prelude.{
  ℕ, zero, suc, ◌+◌, ◌-◌, ◌≡◌, ◌≤◌, refl, Bool, true, false, Option, none, some, [], ltb, sym,
  if◌then◌else◌, str_eq, arith, Bool-cases, inl, inr, ◌<◌,
}
use go_moda_mayor.NewProduct.{
  Fields, Wizard, Saved, holds, day, nonzero, restored, restore_wizard_state, has_significant_data,
  price_or_none, offer, load_from, auto_save, mount, click_continue, step_or_one, save_wizard_state,
  clear_wizard_state,
}

-- The fields of a page that was just opened.
abbrev pub empty_fields : {F : Type 0} → F → Fields F
empty_fields nought = record {
  step = 1;
  name = "";
  description = "";
  price = none;
  sku = "";
  category_id = "";
  subcategory_id = "";
  image_url = "";
  selected_colors = [];
  selected_size_type = "";
  selected_supplier_id = "";
  selected_season_id = "";
  year = none;
  total_stock = none;
  discount_type = "none";
  discount_value = nought;
  is_new_arrival = false;
  is_featured = false;
  is_offer = false;
  is_trending = false;
  created_product_id = none;
  selected_sizes = [];
  sku_prefix = "";
}

-- A page that was just opened.
abbrev pub opened : {F : Type 0} → F → Saved F → Wizard F
opened nought item = record {
  fields = empty_fields nought;
  storage = item;
  saved_state = none;
  show_recovery_modal = false;
}

module _ {F : Type 0} (is_zero : F → Bool) (nought : F) where
  -- No number is zero, but the discount, which may be 0, and the kind of discount is chosen.
  pub record IsPlain (f : Fields F) : Type 0 where
    pub started : 0 < f.step
    pub priced : price_or_none is_zero nought f.price ≡ f.price
    pub dated : nonzero f.year ≡ f.year
    pub stocked : nonzero f.total_stock ≡ f.total_stock
    pub kind : str_eq f.discount_type "" ≡ false
    pub discounted : is_zero f.discount_value ≡ true → f.discount_value ≡ nought
    pub created : nonzero f.created_product_id ≡ f.created_product_id

  step_lem : (n : ℕ) → 0 < n → step_or_one is_zero nought n ≡ n
  step_lem zero h = absurd (omega arith)
  step_lem (suc n) h = refl

  discount_lem : (v : F) → (is_zero v ≡ true → v ≡ nought) → (if is_zero v then nought else v) ≡ v
  discount_lem v h = elim (Bool-cases (is_zero v)) [ inl e ↦ rw e (sym (h e)) | inr e ↦ rw e refl ]

  restored-IsPlain : (f : Fields F) → IsPlain f → restored is_zero nought f ≡ f
  unfolding restored
  restored-IsPlain f p = λ i. record f {
    step = step_lem f.step p.started i;
    price = p.priced i;
    year = p.dated i;
    total_stock = p.stocked i;
    discount_type = kept i;
    discount_value = discount_lem f.discount_value p.discounted i;
    created_product_id = p.created i;
  }
    where
      kept : (if str_eq f.discount_type "" then "none" else f.discount_type) ≡ f.discount_type
      kept = rw p.kind refl

  -- A draft with something in it, whose fields hold nothing that the code takes for missing (a step of
  -- 0, a price of 0, a year, a total stock or a product number of 0, an empty kind of discount, a
  -- discount that counts as zero but is not 0), and that is saved by a page that is then opened again
  -- within a day, is offered, and the button to go on brings all of its fields back.
  pub mount-save_wizard_state :
      (s : Wizard F) (saved now : ℕ)
      → IsPlain s.fields
      → has_significant_data is_zero nought s.fields ≡ true
      → now ≤ saved + day
      → let t = mount is_zero nought now (opened nought (save_wizard_state saved s).storage) in
        (t.show_recovery_modal ≡ true) × ((click_continue is_zero nought t).fields ≡ s.fields)
  unfolding save_wizard_state mount load_from offer auto_save click_continue restore_wizard_state
  mount-save_wizard_state s saved now plain full soon =
      let fresh : ltb day (now - saved) ≡ false = ground arith in
      rw (fresh, full) (refl, restored-IsPlain s.fields plain)

  offer-storage :
      (draft : Option (Fields F)) (item left : Saved F) (now : ℕ)
      → (auto_save is_zero nought now
          (offer is_zero nought draft (record (opened nought item) { storage = left }))).storage
        ≡ holds (empty_fields nought) now
  unfolding offer auto_save save_wizard_state clear_wizard_state
  offer-storage none item left now = refl
  offer-storage (some f) item left now = elim (Bool-cases (has_significant_data is_zero nought f)) [
    | inl e ↦ rw e refl
    | inr e ↦ rw e refl
  ]

  -- Opening the page writes the empty fields over the draft.
  mount-storage :
      (item : Saved F) (now : ℕ)
      → (mount is_zero nought now (opened nought item)).storage ≡ holds (empty_fields nought) now
  unfolding mount
  mount-storage item now = offer-storage (load_from now item).0 item (load_from now item).1 now

  nothing_offered :
      (saved now : ℕ)
      → let t = mount is_zero nought now (opened nought (holds (empty_fields nought) saved)) in
        t.show_recovery_modal ≡ false
  unfolding mount load_from offer auto_save save_wizard_state clear_wizard_state
      has_significant_data
  nothing_offered saved now = elim (Bool-cases (ltb day (now - saved))) [
    | inl e ↦ rw e refl
    | inr e ↦ rw e refl
  ]

  -- A draft that is offered when the page is opened is lost unless it is taken up before the page is
  -- left: opened again, at whatever time, the page offers nothing.
  pub mount-mount :
      (first second : ℕ) (item : Saved F)
      → let left = (mount is_zero nought first (opened nought item)).storage in
        (mount is_zero nought second (opened nought left)).show_recovery_modal ≡ false
  mount-mount first second item = rw (mount-storage item first) (nothing_offered first second)
