-- ===== src/Inventory/Load.antt =====
-- How front/src/app/admin/inventario/page.tsx loads the products with their variants and stocks.
pub mod Together
pub mod Whole
pub mod Posted
use go_moda_mayor.Net.{Reply, failed, refused, garbled, accepted}
use go_moda_mayor.Orders.{Result, ok, thrown}
use go_moda_mayor.Prelude.{ℕ, Bool, false, Option, some, List, [], ◌∷◌, String, get_or}
use go_moda_mayor.Prelude.Int.{ℤ}
use go_moda_mayor.Inventory.{LocationStock, InventoryVariant, InventoryProduct}

-- The JSON of `GET /products`: `items` is falsy, no array, or an array.
pub data Items : Type 0 where
  missing no_array : Items
  items : List InventoryProduct → Items

-- The answers: the products; the variants of a product; the stocks of a variant; and those of a
-- product without variants. Of several requests that fail at once, `first_of` has the message of
-- the one that fails first, given the message of the first in the list and those after it.
pub record Inquiry : Type 0 where
  pub products : Reply Items
  pub variants : ℕ → Reply (List InventoryVariant)
  pub variant_stocks : ℕ → Reply (Option (List LocationStock))
  pub product_stocks : ℕ → Reply (Option (List LocationStock))
  pub first_of : String → List String → String

and_also : {B : Type 0} → Result B → List B × List String → List B × List String
and_also (ok y) (ys, ms) = (y ∷ ys, ms)
and_also (thrown m) (ys, ms) = (ys, m ∷ ms)

settle_all : {B : Type 0} → (String → List String → String) → List B → List String → Result (List B)
settle_all first_of ys [] = ok ys
settle_all first_of ys (m ∷ ms) = thrown (first_of m ms)

module _ {A B : Type 0} where
  -- The values, and the messages of what failed.
  gather : (A → Result B) → List A → List B × List String
  unfolding and_also
  gather f [] = ([], [])
  gather f (x ∷ xs) = and_also (f x) (gather f xs)

  -- `Promise.all(xs.map(f))`
  pub promise_all : (String → List String → String) → (A → Result B) → List A → Result (List B)
  unfolding gather settle_all
  promise_all first_of f xs = let (ys, ms) = gather f xs in settle_all first_of ys ms

abbrev with_stocks : InventoryVariant → List LocationStock → InventoryVariant
with_stocks v rows = record v { stocks = some rows }

variant_with : InventoryVariant → Reply (Option (List LocationStock)) → Result InventoryVariant
variant_with v (failed m) = thrown m
variant_with v (refused status e) = ok (with_stocks v [])
variant_with v (garbled m) = thrown m
variant_with v (accepted rows) = ok (with_stocks v (get_or rows []))

product_with : InventoryProduct → Reply (Option (List LocationStock)) → Result InventoryProduct
product_with p (failed m) = thrown m
product_with p (refused status e) = ok (record p { stocks = some []; variants = some [] })
product_with p (garbled m) = thrown m
product_with p (accepted rows) =
    ok (record p { stocks = some (get_or rows []); variants = some [] })

with_variants : InventoryProduct → Result (List InventoryVariant) → Result InventoryProduct
with_variants p (thrown m) = thrown m
with_variants p (ok vs) = ok (record p { variants = some vs })

module _ (q : Inquiry) where
  after_variants : InventoryProduct → Reply (List InventoryVariant) → Result InventoryProduct
  unfolding variant_with product_with with_variants promise_all
  after_variants p (failed m) = thrown m
  after_variants p (garbled m) = thrown m
  after_variants p (refused status e) = product_with p (q.product_stocks p.id)
  after_variants p (accepted []) = product_with p (q.product_stocks p.id)
  after_variants p (accepted (v ∷ vs)) =
      with_variants p
        (promise_all q.first_of (λ w. variant_with w (q.variant_stocks w.id)) (v ∷ vs))

  pub enrich : InventoryProduct → Result InventoryProduct
  unfolding after_variants
  enrich p = after_variants p (q.variants p.id)

-- The page's list, its notices, and what is being typed, of which Inventory/Edit has the uses.
pub record Editing : Type 0 where
  pub variant_id : Option ℕ
  pub product_id : ℕ
  pub location : String
  pub value : ℤ

pub record InventoryPage : Type 0 where
  pub products : List InventoryProduct
  pub loading : Bool
  pub error : Option String
  pub success : Option String
  pub editing_stock : Option Editing
  -- The stocks that were posted, in order.
  pub posted : List Editing

shows_products : Result (List InventoryProduct) → InventoryPage → InventoryPage
shows_products (ok ps) s = record s { products = ps; loading = false }
shows_products (thrown m) s = record s { error = some m; loading = false }

after_products : Inquiry → Reply Items → InventoryPage → InventoryPage
unfolding shows_products promise_all enrich
after_products q (failed m) s = record s { error = some m; loading = false }
after_products q (refused status e) s = record s {
  error = some "Error cargando productos";
  loading = false;
}
after_products q (garbled m) s = record s { error = some m; loading = false }
after_products q (accepted missing) s = record s { products = []; loading = false }
after_products q (accepted no_array) s = record s { products = []; loading = false }
after_products q (accepted (items ps)) s = shows_products (promise_all q.first_of (enrich q) ps) s

pub load_inventory : Inquiry → InventoryPage → InventoryPage
unfolding after_products
load_inventory q s = after_products q q.products s
