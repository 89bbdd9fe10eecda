-- ===== src/NewProduct/Create/Step.antt =====
-- The step that follows the creation of a product in front/src/app/admin/productos/nuevo/page.tsx, and
-- the kind of variants that is posted.
use go_moda_mayor.Net.{accepted}
use go_moda_mayor.Orders.{Spelled}
use go_moda_mayor.Prelude.{
  ℕ, suc, ◌≡◌, refl, Bool, true, false, Option, some, List, [], ◌∷◌, ◌++◌, String, if◌then◌else◌,
  str_eq, or_else, Bool-cases, inl, inr, arith,
}
use go_moda_mayor.NewProduct.{Fields}
use go_moda_mayor.NewProduct.Create.{
  SizeType, Creator, variant_type_of, has_size_variants, size_type_of, product_post, has_variants,
  is_no_color, handle_submit, after_post, next_step, emptied,
}

module _ (to_number : String → Option ℕ) (to_lower_case : String → String) where
  -- Where some colour is chosen, the mark for none included, the kind is not that of no variants.
  variant_type_of-is_no_color :
      (key : Option String) (colors : List String)
      → is_no_color to_number to_lower_case colors ≡ true
      → str_eq (variant_type_of to_number key colors) "sin_variantes" ≡ false
  unfolding variant_type_of
  variant_type_of-is_no_color key [] h = absurd (cc)
  variant_type_of-is_no_color key (c ∷ d ∷ cs) h = absurd (cc)
  variant_type_of-is_no_color key (c ∷ []) h = elim (Bool-cases (has_size_variants to_number key)) [
    | inl e ↦ rw e refl
    | inr e ↦ rw e refl
  ]

  has_variants-variant_type :
      {F : Type 0} (nought : F) (types : List SizeType) (f : Fields F)
      → has_variants to_number to_lower_case types f.selected_size_type f.selected_colors ≡ false
      → str_eq (product_post to_number nought types f).variant_type "sin_variantes" ≡ false
  unfolding has_variants product_post
  has_variants-variant_type nought types f h =
      variant_type_of-is_no_color (size_type_of to_number f.selected_size_type types).1
        f.selected_colors (ground arith)

  -- The form of the first step posts the product once. If the server answers with an identifier, the
  -- next step is 2 or 4; in step 4, where the stock of a product without variants is asked for, the
  -- product was not posted as one without variants.
  pub handle_submit_lem :
      {F : Type 0} (nought : F) (i : Spelled ℕ) (n : ℕ) (ok : Bool) (s : Creator F)
      → or_else i.lower i.upper ≡ some (suc n)
      → let t = handle_submit to_number to_lower_case nought (accepted i) ok s in
        let post = product_post to_number nought s.size_types s.fields in
        (t.posted ≡ s.posted ++ (post ∷ []))
        × (t.fields.created_product_id ≡ some (suc n))
        × (t.fields.step ≡ (
            if has_variants to_number to_lower_case s.size_types s.fields.selected_size_type
              s.fields.selected_colors
            then 2
            else 4))
        × (t.fields.step ≡ 4 → str_eq post.variant_type "sin_variantes" ≡ false)
  unfolding handle_submit after_post next_step emptied
  handle_submit_lem nought i n ok s known =
      elim (Bool-cases (
        has_variants to_number to_lower_case s.size_types s.fields.selected_size_type
          s.fields.selected_colors)) [
            | inl e ↦ rw (known, e) (refl, refl, refl, λ four. absurd (omega (arith, four)))
            | inr e ↦
                rw (known, e)
                  (refl, refl, refl, λ _. has_variants-variant_type nought s.size_types s.fields e)
          ]
