-- ===== src/SellerCarts/Items.antt =====
-- The items of a cart in front/src/app/vendedora/carritos/page.tsx: which are confirmed and which are
-- pending, and the rows of stock that the page reads.
use go_moda_mayor.Prelude.{
  ℕ, Bool, not, ◌&&◌, ◌||◌, Option, List, [], ◌∷◌, String, ◌==◌, if◌then◌else◌, keep, get_or,
  or_else,
}
use go_moda_mayor.Prelude.Int.{ℤ, pos, ◌-ℤ◌, leb_ℤ}
use go_moda_mayor.Orders.{Spelled}

pub record ItemVariant : Type 0 where
  pub color : Option String
  pub size : Option String
  pub sku : Option String

-- An item of the cart or of its summary. `product_name` is `product.name`, or else `product_name`.
pub record CartItem : Type 0 where
  pub product_id : ℕ
  pub variant_id : ℕ
  pub quantity : ℕ
  pub location : Spelled String
  pub product_name : Option String
  pub variant : Option ItemVariant
  pub requires_stock_check : Bool
  pub stock_confirmed : Bool

-- The items of the cart's summary, if it has some, stand for those of the cart.
pub confirmed_items : List CartItem → List CartItem → List CartItem
confirmed_items [] items = keep (λ i. not i.requires_stock_check || i.stock_confirmed) items
confirmed_items (i ∷ summary) items = keep (λ i. i.stock_confirmed) (i ∷ summary)

pub pending_items : List CartItem → List CartItem → List CartItem
pending_items [] items = keep (λ i. i.requires_stock_check && not i.stock_confirmed) items
pending_items (i ∷ summary) items =
    keep (λ i. not i.stock_confirmed && i.requires_stock_check) (i ∷ summary)

-- The stock of a variant at a place. The upper spellings are `Quantity`, `Reserved` and `Location`.
pub record StockRow : Type 0 where
  pub stock : Spelled ℤ
  pub reserved : Spelled ℤ
  pub location : Spelled String

-- An answer with rows: they are the answer, or its property `stocks`, if it has it.
pub data StockAnswer : Type 0 where
  rows : List StockRow → StockAnswer
  wrapped : Option (List StockRow) → StockAnswer

unfoldable pub stocks_of : StockAnswer → List StockRow
stocks_of (rows rs) = rs
stocks_of (wrapped rs) = get_or rs []

-- `x ?? X`
abbrev pub lower_first : {A : Type 0} → Spelled A → Option A
lower_first x = or_else x.lower x.upper

unfoldable pub available : StockRow → ℤ
available r = get_or (lower_first r.stock) (pos 0) -ℤ get_or (lower_first r.reserved) (pos 0)

-- `available >= (it.quantity || 1)`
unfoldable pub has_enough : ℕ → StockRow → Bool
has_enough quantity r = leb_ℤ (pos (if quantity == 0 then 1 else quantity)) (available r)
