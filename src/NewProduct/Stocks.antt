-- ===== src/NewProduct/Stocks.antt =====
-- The third and the fourth step of front/src/app/admin/productos/nuevo/page.tsx: the stocks of the
-- variants, or of a product without them. Where the code lists the stocks by the identifiers of their
-- variants, they are in the order in which they were made here.
pub mod Payload
use go_moda_mayor.Net.{Ack, failed, refused, acked}
use go_moda_mayor.Prelude.{
  ℕ, zero, suc, Bool, true, false, ◌&&◌, Option, none, some, List, [], ◌∷◌, ◌++◌, String, ◌==◌, ltb,
  if◌then◌else◌, str_eq, text_or, get_or, concat,
}
use go_moda_mayor.Prelude.Decimal.{show_ℕ}
use go_moda_mayor.NewProduct.Variants.{Stocks}

-- `Number(vid)`, NaN for an identifier that is undefined; `variant_id` is null for the product itself.
pub record StockRow : Type 0 where
  pub variant_id : Option ℕ
  pub location : String
  pub quantity : ℕ

pub record Stocker : Type 0 where
  pub created_product_id : Option ℕ
  pub stocks : Stocks
  pub simple_stocks : List (String × ℕ)
  pub step : ℕ
  -- Whether the draft is still in the storage.
  pub has_draft : Bool
  pub error : Option String
  pub success : Option String
  pub pushed : List String
  pub posted : List (List StockRow)

abbrev pub same_id : Option ℕ → Option ℕ → Bool
same_id none none = true
same_id none (some n) = false
same_id (some m) none = false
same_id (some m) (some n) = m == n

-- `{ ...m, [place]: n }`
pub put_place : String → ℕ → List (String × ℕ) → List (String × ℕ)
put_place place n [] = (place, n) ∷ []
put_place place n ((p, m) ∷ ps) =
    if str_eq p place then (p, n) ∷ ps else (p, m) ∷ put_place place n ps

-- What the user types for a variant at a place.
pub put_stock : Option ℕ → String → ℕ → Stocks → Stocks
unfolding put_place
put_stock v place n [] = (v, (place, n) ∷ []) ∷ []
put_stock v place n ((w, ps) ∷ rest) =
    if same_id w v then (w, put_place place n ps) ∷ rest else (w, ps) ∷ put_stock v place n rest

-- The rows of one variant, those with a quantity above zero only.
rows_of : Option ℕ → List (String × ℕ) → List StockRow
rows_of v [] = []
rows_of v ((place, n) ∷ ps) =
    let rest = rows_of v ps in
    if ltb 0 n then record { variant_id = v; location = place; quantity = n } ∷ rest else rest

pub stocks_payload : Stocks → List StockRow
unfolding rows_of
stocks_payload [] = []
stocks_payload ((v, ps) ∷ rest) = rows_of v ps ++ stocks_payload rest

-- The answer, whose body is always read: it may have an `error`.
after_save : ℕ → Ack → Stocker → Stocker
after_save product (failed m) s = record s { error = some m }
after_save product (refused status e) s = record s {
  error = some (text_or e "Error guardando stocks");
}
after_save product acked s = record s {
  success = some "Stocks guardados correctamente";
  has_draft = false;
  pushed = s.pushed ++ (concat ("/admin/productos/" ∷ show_ℕ product ∷ []) ∷ []);
}

save_for : Option ℕ → Ack → Stocker → Stocker
unfolding stocks_payload after_save
save_for none reply s = record s { error = some "Producto no creado" }
save_for (some zero) reply s = record s { error = some "Producto no creado" }
save_for (some (suc n)) reply s =
    after_save (suc n) reply (record s {
      error = none;
      success = none;
      posted = s.posted ++ (stocks_payload s.stocks ∷ []);
    })

pub handle_save_stocks : Ack → Stocker → Stocker
unfolding save_for
handle_save_stocks reply s = save_for s.created_product_id reply s

-- The product itself, in the fourth step.
after_simple : Ack → Stocker → Stocker
after_simple (failed m) s = record s { error = some (concat ("Error al guardar stock: " ∷ m ∷ [])) }
after_simple (refused status e) s = record s {
  error = some (concat ("Error al guardar stock: " ∷ text_or e "Error al guardar stock" ∷ []));
}
after_simple acked s = record s {
  success = some "Stock asignado exitosamente";
  has_draft = false;
  pushed = s.pushed ++ ("/admin/productos" ∷ []);
}

post_simple : List StockRow → Ack → Stocker → Stocker
unfolding after_simple
post_simple [] reply s = record s { error = some "Debe asignar al menos un stock mayor a 0" }
post_simple (r ∷ rs) reply s =
    after_simple reply (record s { posted = s.posted ++ ((r ∷ rs) ∷ []) })

simple_for : Option ℕ → Ack → Stocker → Stocker
unfolding post_simple rows_of
simple_for none reply s = record s { error = some "No se encontró el producto creado" }
simple_for (some zero) reply s = record s { error = some "No se encontró el producto creado" }
simple_for (some (suc n)) reply s = post_simple (rows_of none s.simple_stocks) reply s

-- The redirection follows after a second and a half.
pub save_simple_stock : Ack → Stocker → Stocker
unfolding simple_for
save_simple_stock reply s = simple_for s.created_product_id reply s
