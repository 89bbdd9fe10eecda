-- ===== src/VariantsTable/Delete.antt =====
-- What the button "Eliminar" of front/src/components/VariantsTable.tsx deletes.
use go_moda_mayor.Net.{Ack, failed, refused, acked}
use go_moda_mayor.Prelude.{
  ℕ, zero, suc, ◌≡◌, refl, Bool, true, false, not, ◌&&◌, Option, none, some, List, [], ◌∷◌, ◌++◌,
  if◌then◌else◌, keep, All,
}
use go_moda_mayor.VariantsTable.{
  Variant, Table, delete, id_or, same, without, ack_of, click_delete, handle_delete, delete_row,
  after_delete,
}

abbrev is_acked : Ack → Bool
is_acked acked = true
is_acked (failed m) = false
is_acked (refused status e) = false

module _ {B : Type 0} where
  after_delete_lem :
      (id : Option ℕ) (reply : Ack) (s : Table B)
      → let t = after_delete id (ack_of "Error al eliminar variante" reply) s in
        (t.sent ≡ s.sent)
        × (t.variants ≡ (if is_acked reply then without id s.variants else s.variants))
  unfolding after_delete
  after_delete_lem id acked s = (refl, refl)
  after_delete_lem id (failed m) s = (refl, refl)
  after_delete_lem id (refused status e) s = (refl, refl)

  -- A variant with an identifier, of a saved product: once the user confirms, its deletion is
  -- requested, and if the server accepts, all rows with its identifier are gone, and no others; else
  -- the rows stay.
  click_delete_lem :
      (confirmed : Bool) (v : Variant B) (idx n p : ℕ) (reply : Ack) (s : Table B)
      → id_or v.id ≡ some (suc n)
      → s.product_id ≡ suc p
      → let t = click_delete confirmed v idx reply s in
        (t.sent ≡ (if confirmed then s.sent ++ (delete (suc n) ∷ []) else s.sent))
        × (t.variants ≡ (
            if confirmed && is_acked reply
            then keep (λ w. not (same (id_or w.id) (some (suc n)))) s.variants
            else s.variants))
  unfolding click_delete handle_delete delete_row
  click_delete_lem false v idx n p reply s e saved = (refl, refl)
  click_delete_lem true v idx n p reply s e saved =
      rw (e, saved) (after_delete_lem (some (suc n)) reply _)

  -- A row without an identifier that is not the first, of a saved product: once the user confirms, the
  -- variant whose identifier is the number of the row, counted from 0, is deleted on the server, and
  -- its rows with it, if the server accepts.
  click_delete_unsaved :
      (v : Variant B) (idx p : ℕ) (reply : Ack) (s : Table B)
      → id_or v.id ≡ none
      → s.product_id ≡ suc p
      → let t = click_delete true v (suc idx) reply s in
        (t.sent ≡ s.sent ++ (delete (suc idx) ∷ []))
        × (t.variants ≡ (
            if is_acked reply
            then keep (λ w. not (same (id_or w.id) (some (suc idx)))) s.variants
            else s.variants))
  unfolding click_delete handle_delete delete_row
  click_delete_unsaved v idx p reply s e saved =
      rw (e, saved) (after_delete_lem (some (suc idx)) reply _)

  keep_unsaved :
      (n : ℕ) (vs : List (Variant B)) → All (λ w. id_or w.id ≡ none) vs → without (some n) vs ≡ vs
  keep_unsaved n [] h = refl
  keep_unsaved n (v ∷ vs) (h, hs) = rw (h, keep_unsaved n vs hs) refl

  -- In the table of a product that is not saved, where no row has an identifier, the button deletes
  -- nothing.
  pub click_delete_local :
      (confirmed : Bool) (v : Variant B) (idx : ℕ) (reply : Ack) (s : Table B)
      → s.product_id ≡ 0
      → id_or v.id ≡ none
      → All (λ w. id_or w.id ≡ none) s.variants
      → (click_delete confirmed v idx reply s).variants ≡ s.variants
  unfolding click_delete handle_delete delete_row
  click_delete_local false v idx reply s new bare all_bare = refl
  click_delete_local true v zero reply s new bare all_bare =
      rw (new, bare) (keep_unsaved 0 s.variants all_bare)
  click_delete_local true v (suc idx) reply s new bare all_bare =
      rw (new, bare) (keep_unsaved (suc idx) s.variants all_bare)
