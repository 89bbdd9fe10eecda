-- ===== src/SellerCarts/Address.antt =====
-- The edition of a client's address in front/src/app/vendedora/carritos/page.tsx.
use go_moda_mayor.Prelude.{
  ℕ, ◌≡◌, refl, Bool, true, false, not, ◌&&◌, inl, inr, Option, none, some, List, [], ◌∷◌, ◌++◌,
  String, if◌then◌else◌, truthy, text_or, Bool-cases, arith,
}
use go_moda_mayor.Net.{Reply, failed, refused, garbled, accepted}
use go_moda_mayor.SellerCarts.{
  SellerCart, SellerPage, success, warning, error, show_modal, fetch_carts,
}

-- An address of the server; any text of it may be missing.
pub record Address : Type 0 where
  pub id : ℕ
  pub recipient_name : Option String
  pub recipient_phone : Option String
  pub street : Option String
  pub floor : Option String
  pub city : Option String
  pub state : Option String
  pub postal_code : Option String
  pub country : Option String
  pub reference : Option String
  pub label : Option String

pub record AddressForm : Type 0 where
  pub recipient_name : String
  pub recipient_phone : String
  pub street : String
  pub floor : String
  pub city : String
  pub state : String
  pub postal_code : String
  pub country : String
  pub reference : String
  pub label : String

-- `editing_address` is the identifier of the address that is edited; `put` holds the requests.
pub record AddressPage : Type 0 where
  pub page : SellerPage
  pub editing_address : Option ℕ
  pub show_address_modal : Bool
  pub address_form : AddressForm
  pub put : List (ℕ × AddressForm)

pub form_of : Address → AddressForm
form_of a = record {
  recipient_name = text_or a.recipient_name "";
  recipient_phone = text_or a.recipient_phone "";
  street = text_or a.street "";
  floor = text_or a.floor "";
  city = text_or a.city "";
  state = text_or a.state "";
  postal_code = text_or a.postal_code "";
  country = text_or a.country "Argentina";
  reference = text_or a.reference "";
  label = text_or a.label "";
}

pub open_edit_address_modal : Address → AddressPage → AddressPage
open_edit_address_modal a s = record s {
  editing_address = some a.id;
  address_form = form_of a;
  show_address_modal = true;
}

pub is_complete : AddressForm → Bool
is_complete f =
    truthy (some f.recipient_name)
    && truthy (some f.recipient_phone)
    && truthy (some f.street)
    && truthy (some f.city)
    && truthy (some f.state)
    && truthy (some f.postal_code)

-- A message, or else the one for all failures.
abbrev fail_with : String → AddressPage → AddressPage
fail_with m s = record s {
  page = show_modal error (text_or (some m) "No se pudo actualizar la dirección") s.page;
}

module _ (carts : Reply (Option (List SellerCart))) where
  -- A refusal is garbled if its body is not JSON.
  after_put : Reply Unit → AddressPage → AddressPage
  after_put (failed m) s = fail_with m s
  after_put (refused status e) s = fail_with (text_or e "Error al actualizar dirección") s
  after_put (garbled m) s = fail_with m s
  after_put (accepted u) s = record s {
    show_address_modal = false;
    editing_address = none;
    page =
        fetch_carts carts
          (show_modal success "La dirección del cliente se actualizó correctamente." s.page);
  }

  update_with : Option ℕ → Reply Unit → AddressPage → AddressPage
  unfolding after_put
  update_with none reply s = s
  update_with (some id) reply s =
      if is_complete s.address_form
      then after_put reply (record s { put = s.put ++ ((id, s.address_form) ∷ []) })
      else record s {
        page =
            show_modal warning
              "Por favor completa todos los campos obligatorios (nombre, teléfono, calle, ciudad, provincia y código postal)."
              s.page;
      }

  pub handle_update_address : Reply Unit → AddressPage → AddressPage
  unfolding update_with
  handle_update_address reply s = update_with s.editing_address reply s

abbrev pub is_accepted : Reply Unit → Bool
is_accepted (failed m) = false
is_accepted (refused status e) = false
is_accepted (garbled m) = false
is_accepted (accepted u) = true

after_put_lem :
    (carts : Reply (Option (List SellerCart))) (reply : Reply Unit) (s : AddressPage)
    → let t = after_put carts reply s in
      (t.put ≡ s.put) × (t.show_address_modal ≡ (not (is_accepted reply) && s.show_address_modal))
unfolding after_put
after_put_lem carts (failed m) s = (refl, refl)
after_put_lem carts (refused status e) s = (refl, refl)
after_put_lem carts (garbled m) s = (refl, refl)
after_put_lem carts (accepted u) s = (refl, refl)

-- A client's address that is opened and saved at once is sent, with its identifier and its texts, just
-- if the six texts that are required are there; the window is closed just if it was sent and the
-- server accepts.
pub handle_update_address-open :
    (carts : Reply (Option (List SellerCart))) (reply : Reply Unit) (a : Address) (s : AddressPage)
    → let t = handle_update_address carts reply (open_edit_address_modal a s) in
      let complete = is_complete (form_of a) in
      (t.put ≡ (if complete then s.put ++ ((a.id, form_of a) ∷ []) else s.put))
      × (t.show_address_modal ≡ not (complete && is_accepted reply))
unfolding handle_update_address open_edit_address_modal update_with
handle_update_address-open carts reply a s = elim (Bool-cases (is_complete (form_of a))) [
  | inl e ↦
      let h =
        after_put_lem carts reply
          (record (open_edit_address_modal a s) { put = s.put ++ ((a.id, form_of a) ∷ []) }) in
      rw e (h.0, ground (arith, h.1))
  | inr e ↦ rw e (refl, refl)
]
