-- ===== src/TierEditor/Saved.antt =====
-- What is saved by front/src/app/admin/configuracion/precios/page.tsx.
use go_moda_mayor.Prelude.{
  String, Option, ◌+◌, ◌≡◌, refl, ◌<◌, ◌≤◌, none, some, List, [], ◌∷◌, ◌++◌, arith, All, concat,
}
use go_moda_mayor.Prelude.Decimal.{show_ℕ}
use go_moda_mayor.Prelude.Sort.{All-mono}
use go_moda_mayor.Pricing.{PriceTier, TiersReply, failed, tiers}
use go_moda_mayor.CartModal.{Money}
use go_moda_mayor.TierEditor.{
  Answer, no_connection, accepted, refused, Editor, load_tiers, handle_save, after_save,
  save_request, max_order, set_form_data, open_edit_modal, open_create_modal,
}

module _ {F : Type 0} where
  max_order-All : (ts : List (PriceTier F)) → All (λ t. t.order_index ≤ max_order ts) ts
  max_order-All [] = tt
  max_order-All (t ∷ ts) = (
    omega arith,
    All-mono (λ u. u.order_index ≤ max_order ts) (λ u. u.order_index ≤ max_order (t ∷ ts)) ts
        (λ u h. omega arith) (max_order-All ts),
  )

  load_tiers-sent : (r : TiersReply F) (s : Editor F) → (load_tiers r s).sent ≡ s.sent
  unfolding load_tiers
  load_tiers-sent failed s = refl
  load_tiers-sent (tiers ts) s = refl

  handle_save-sent :
      (a : Answer) (r : TiersReply F) (s : Editor F)
      → (handle_save a r s).sent ≡ s.sent ++ (save_request s.editing_tier s.form ∷ [])
  unfolding handle_save after_save
  handle_save-sent no_connection r s = refl
  handle_save-sent (refused none) r s = refl
  handle_save-sent (refused (some e)) r s = refl
  handle_save-sent accepted r s = load_tiers-sent r _

  -- The form for a new tier puts it after all tiers in the list; saving posts it once, as it was then
  -- typed. Saving a tier that is opened to be edited puts it once, as it was then typed, under the
  -- identifier that it was opened with. And so whichever form was opened before, and however the
  -- server answers.
  pub handle_save-open_modal :
      ⦃m : Money F⦄ (answer : Answer) (reply : TiersReply F) (t typed : PriceTier F) (s : Editor F)
      → let created = open_create_modal s in
        let post : String × String × Option (PriceTier F) =
          ("POST", "/settings/price-tiers", some typed) in
        let put : String × String × Option (PriceTier F) =
          ("PUT", concat ("/settings/price-tiers/" ∷ show_ℕ t.id ∷ []), some typed) in
        All (λ u. u.order_index < created.form.order_index) s.price_tiers
        × ((handle_save answer reply (set_form_data typed created)).sent ≡ s.sent ++ (post ∷ []))
        × ((handle_save answer reply (set_form_data typed (open_edit_modal t created))).sent
            ≡ s.sent ++ (put ∷ []))
        × ((handle_save answer reply
              (set_form_data typed (open_create_modal (open_edit_modal t s)))).sent
            ≡ s.sent ++ (post ∷ []))
        × ((handle_save answer reply (open_edit_modal t created)).sent
            ≡ s.sent
              ++ (("PUT", concat ("/settings/price-tiers/" ∷ show_ℕ t.id ∷ []), some t) ∷ []))
  unfolding open_create_modal open_edit_modal set_form_data save_request
  handle_save-open_modal answer reply t typed s = (
    All-mono (λ u. u.order_index ≤ max_order s.price_tiers)
        (λ u. u.order_index < max_order s.price_tiers + 1) s.price_tiers (λ u h. omega arith)
        (max_order-All s.price_tiers),
    handle_save-sent answer reply _,
    handle_save-sent answer reply _,
    handle_save-sent answer reply _,
    handle_save-sent answer reply _,
  )
