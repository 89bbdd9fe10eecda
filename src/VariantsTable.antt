-- ===== src/VariantsTable.antt =====
-- front/src/components/VariantsTable.tsx: the table in which the variants of a product are added,
-- changed and deleted, and their images uploaded. The upload that a new row with a file starts beside
-- the rest is left out.
pub mod Upload
pub mod Save
pub mod Retry
pub mod Delete
use go_moda_mayor.Net.{Reply, Ack, failed, refused, garbled, accepted, acked}
use go_moda_mayor.Orders.{Spelled, Result, ok, thrown}
use go_moda_mayor.Prelude.{
  ℕ, zero, suc, Bool, true, false, not, ◌&&◌, ◌||◌, Option, none, some, List, [], ◌∷◌, ◌++◌, map,
  String, ◌==◌, if◌then◌else◌, any, keep, str_eq, truthy, text_or, or_else, get_elem?,
}

-- A row; `B` is the type of the files.
pub record Variant (B : Type 0) : Type 0 where
  pub id : Spelled ℕ
  pub color : Option String
  pub size : Option String
  pub sku : Option String
  pub image_url : Option String
  pub file : Option B

-- The requests that change something, in the order in which they are sent.
pub data Change (B : Type 0) : Type 0 where
  create : Variant B → Change B
  update : ℕ → Variant B → Change B
  delete : ℕ → Change B
  upload : ℕ → B → Change B
  propagate : String → String → Change B

-- The component with its parent's list of variants. A toast is one of success or of an error.
pub record Table (B : Type 0) : Type 0 where
  pub product_id : ℕ
  pub variants : List (Variant B)
  pub edit_idx : Option ℕ
  pub edit_variant : Option (Variant B)
  pub new_variant : Variant B
  pub uploading : ℕ → Bool
  pub saving : ℕ → Bool
  pub row_error : ℕ → String
  pub toasts : List (Bool × String)
  pub sent : List (Change B)

-- `{ ...f, [i]: x }`
abbrev pub put {ℓ} : {A : Type ℓ} → ℕ → A → (ℕ → A) → ℕ → A
put i x f j = if j == i then x else f j

abbrev pub nonzero : ℕ → Bool
nonzero zero = false
nonzero (suc n) = true

abbrev pub first_nonzero : Option ℕ → Option ℕ → Option ℕ
first_nonzero none lower = lower
first_nonzero (some zero) lower = lower
first_nonzero (some (suc n)) lower = some (suc n)

-- `ID || id`
abbrev pub id_or : Spelled ℕ → Option ℕ
id_or i = first_nonzero i.upper i.lower

-- `ID ?? id`
abbrev pub id_of : Spelled ℕ → Option ℕ
id_of i = or_else i.upper i.lower

-- `a === b`
abbrev pub same : Option ℕ → Option ℕ → Bool
same none none = true
same none (some n) = false
same (some m) none = false
same (some m) (some n) = m == n

-- What an answer to a request of the component comes to.
abbrev pub answer_of : {A : Type 0} → String → Reply A → Result A
answer_of message (failed m) = thrown m
answer_of message (refused status e) = thrown message
answer_of message (garbled m) = thrown m
answer_of message (accepted a) = ok a

abbrev pub ack_of : String → Ack → Option String
ack_of message (failed m) = some m
ack_of message (refused status e) = some message
ack_of message acked = none

-- `v.ID || v.id || idx`
abbrev id_or_place : Option ℕ → ℕ → ℕ
id_or_place none idx = idx
id_or_place (some zero) idx = idx
id_or_place (some (suc n)) idx = suc n

module _ {B : Type 0} where
  abbrev pub toast_success : String → Table B → Table B
  toast_success m s = record s { toasts = s.toasts ++ ((true, m) ∷ []) }

  abbrev pub toast_error : String → Table B → Table B
  toast_error m s = record s { toasts = s.toasts ++ ((false, m) ∷ []) }

  abbrev pub send : Change B → Table B → Table B
  send c s = record s { sent = s.sent ++ (c ∷ []) }

  -- `variants.filter(v => (v.ID || v.id) !== variantId)`
  abbrev pub without : Option ℕ → List (Variant B) → List (Variant B)
  without id vs = keep (λ v. not (same (id_or v.id) id)) vs

  abbrev drop_rows : Option ℕ → Table B → Table B
  drop_rows id s = record s { variants = without id s.variants }

  after_delete : Option ℕ → Option String → Table B → Table B
  after_delete id none s = drop_rows id (toast_success "Variante eliminada" s)
  after_delete id (some m) s = toast_error (text_or (some m) "Error al eliminar variante") s

  delete_row : ℕ → Option ℕ → Ack → Table B → Table B
  unfolding after_delete
  delete_row product none reply s = drop_rows none s
  delete_row product (some zero) reply s = drop_rows (some 0) s
  delete_row zero (some (suc n)) reply s = drop_rows (some (suc n)) s
  delete_row (suc p) (some (suc n)) reply s =
      after_delete (some (suc n)) (ack_of "Error al eliminar variante" reply)
        (send (delete (suc n)) s)

  -- The user has confirmed, or not.
  pub handle_delete : Bool → Option ℕ → Ack → Table B → Table B
  unfolding delete_row
  handle_delete confirmed id reply s = if confirmed then delete_row s.product_id id reply s else s

  -- The button of the row `v` at the place `idx`.
  pub click_delete : Bool → Variant B → ℕ → Ack → Table B → Table B
  unfolding handle_delete
  click_delete confirmed v idx reply s =
      handle_delete confirmed (some (id_or_place (id_or v.id) idx)) reply s

  pub handle_edit : ℕ → Table B → Table B
  handle_edit idx s = record s { edit_idx = some idx; edit_variant = get_elem? s.variants idx }

  pub handle_edit_cancel : Table B → Table B
  handle_edit_cancel s = record s { edit_idx = none; edit_variant = none }

  -- `variants.map((x, i) => i === idx ? v : x)`
  pub set_row : ℕ → Variant B → List (Variant B) → List (Variant B)
  set_row idx v [] = []
  set_row zero v (x ∷ xs) = v ∷ xs
  set_row (suc idx) v (x ∷ xs) = x ∷ set_row idx v xs
