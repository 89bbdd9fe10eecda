-- ===== src/TierEditor.antt =====
-- front/src/app/admin/configuracion/precios/page.tsx: the editor of the price tiers.
pub mod Saved
mod Tests
use Prim.Native.Nat.{max}
use go_moda_mayor.Prelude.{
  ℕ, ◌+◌, Bool, true, false, Option, none, some, List, [], ◌∷◌, ◌++◌, map, String, if◌then◌else◌,
  str_eq, text_or, get_or, concat, reduce,
}
use go_moda_mayor.Prelude.Decimal.{show_ℕ}
use go_moda_mayor.Pricing.{PriceTier, multiplier, TiersReply, failed, tiers}
use go_moda_mayor.CartModal.{Money}

-- What a request comes to: no connection, an answer that is not `ok`, with the `error` of its body
-- unless the body is no JSON, or an answer that is `ok`.
pub data Answer : Type 0 where
  no_connection accepted : Answer
  refused : Option (Option String) → Answer

-- The form's tier has an `ID` only if it was copied from a tier: that of `editing`. What was sent is
-- kept as method, path, less the server's, and the tier of the body, if there is one, in order.
pub record Editor (F : Type 0) : Type 0 where
  pub price_tiers : List (PriceTier F)
  pub loading : Bool
  pub show_modal : Bool
  pub editing_tier : Option (PriceTier F)
  pub form : PriceTier F
  pub alerts : List String
  pub sent : List (String × String × Option (PriceTier F))

module _ {F : Type 0} where
  pub load_tiers : TiersReply F → Editor F → Editor F
  load_tiers failed s = record s { loading = false }
  load_tiers (tiers ts) s = record s { price_tiers = get_or ts []; loading = false }

  abbrev alert : String → Editor F → Editor F
  alert m s = record s { alerts = s.alerts ++ (m ∷ []) }

  -- The request of a save, and what is said when it succeeds.
  save_request : Option (PriceTier F) → PriceTier F → String × String × Option (PriceTier F)
  save_request none form = ("POST", "/settings/price-tiers", some form)
  save_request (some t) form =
      ("PUT", concat ("/settings/price-tiers/" ∷ show_ℕ t.id ∷ []), some form)

  abbrev saved_message : Option (PriceTier F) → String
  saved_message none = "Nivel de precio creado"
  saved_message (some t) = "Nivel de precio actualizado"

  after_save : Answer → TiersReply F → Editor F → Editor F
  unfolding load_tiers
  after_save no_connection reply s = alert "Error al guardar" s
  after_save (refused none) reply s = alert "Error al guardar" s
  after_save (refused (some e)) reply s =
      alert (concat ("Error: " ∷ text_or e "No se pudo guardar" ∷ [])) s
  after_save accepted reply s =
      load_tiers reply (record (alert (saved_message s.editing_tier) s) {
        show_modal = false;
        editing_tier = none;
      })

  pub handle_save : Answer → TiersReply F → Editor F → Editor F
  unfolding after_save save_request
  handle_save answer reply s =
      after_save answer reply
        (record s { sent = s.sent ++ (save_request s.editing_tier s.form ∷ []) })

  after_delete : Answer → TiersReply F → Editor F → Editor F
  unfolding load_tiers
  after_delete no_connection reply s = alert "Error al eliminar" s
  after_delete (refused none) reply s = alert "Error al eliminar" s
  after_delete (refused (some e)) reply s =
      alert (concat ("Error: " ∷ text_or e "No se pudo eliminar" ∷ [])) s
  after_delete accepted reply s = load_tiers reply (alert "Nivel de precio eliminado" s)

  -- `confirmed` is what the user answers.
  pub handle_delete : Bool → ℕ → Answer → TiersReply F → Editor F → Editor F
  unfolding after_delete
  handle_delete confirmed id answer reply s =
      if confirmed
      then after_delete answer reply (record s {
        sent =
            s.sent ++ (("DELETE", concat ("/settings/price-tiers/" ∷ show_ℕ id ∷ []), none) ∷ []);
      })
      else s

  -- `Math.max(...orders, 0)`
  abbrev pub max_order : List (PriceTier F) → ℕ
  max_order [] = 0
  max_order (t ∷ ts) = max t.order_index (max_order ts)

  -- What is typed in the fields.
  pub set_form_data : PriceTier F → Editor F → Editor F
  set_form_data form s = record s { form = form }

  pub open_edit_modal : PriceTier F → Editor F → Editor F
  open_edit_modal t s = record s { form = t; editing_tier = some t; show_modal = true }

module _ {F : Type 0} ⦃m : Money F⦄ where
  -- The tier has no `ID` yet, which 0 stands for.
  pub open_create_modal : Editor F → Editor F
  open_create_modal s = record s {
    form = record {
      id = 0;
      name = "";
      display_name = "";
      formula_type = multiplier;
      multiplier = m.of_ℕ 1;
      percentage = m.of_ℕ 0;
      flat_amount = m.of_ℕ 0;
      min_quantity = 0;
      order_index = max_order s.price_tiers + 1;
      active = true;
      description = "";
      is_default = false;
      show_in_public = true;
      color_code = "#3B82F6";
    };
    editing_tier = none;
    show_modal = true;
  }
