-- ===== src/CartModal/Buttons.antt =====
-- The buttons beside the items of front/src/components/CartModal.tsx. The stock check and the summary
-- that follow a change are those of StockCheck and Summary.
pub mod Minus
use go_moda_mayor.Prelude.{
  ℕ, zero, suc, ◌+◌, ◌-◌, Bool, true, false, not, ◌&&◌, ◌||◌, Option, none, some, List, [], ◌∷◌,
  String, ◌==◌, if◌then◌else◌, find, keep, get_or,
}
use Prim.Native.Nat.{max}
use go_moda_mayor.Prelude.Int.{ℤ, pos, negsuc, ◌+ℤ◌, leb_ℤ}
use go_moda_mayor.Net.{Reply, Ack}
use go_moda_mayor.GuestCart.{Store, Browser, update_guest_cart_quantity, remove_from_guest_cart}
use go_moda_mayor.GuestCart.Items.{GuestCartItem}
use go_moda_mayor.StockCheck.{
  StockIssue, IssueType, limited_stock, out_of_stock, insufficient_stock,
}
use go_moda_mayor.Cart.{CartState, fetch_cart, update_quantity_variant, remove_from_cart}
use go_moda_mayor.CartModal.{ModalItem, is_pending}
use go_moda_mayor.CartModal.Totals.{get_available_stock}

-- `Math.max(1, q)`
abbrev pub at_least_one : ℤ → ℤ
at_least_one q = if leb_ℤ (pos 1) q then q else pos 1

module _ {F T : Type 0} ⦃s : Store F T⦄ where
  pub guest_minus : GuestCartItem F → Browser F T → Browser F T
  guest_minus i b =
      update_guest_cart_quantity i.product_id i.variant_id (at_least_one (i.quantity +ℤ negsuc 0)) b

  pub guest_plus : GuestCartItem F → Browser F T → Browser F T
  guest_plus i b = update_guest_cart_quantity i.product_id i.variant_id (i.quantity +ℤ pos 1) b

  pub guest_remove : GuestCartItem F → Browser F T → Browser F T
  guest_remove i b = remove_from_guest_cart i.product_id i.variant_id b

-- `!isPending && availableStock !== null && availableStock === 0`
abbrev is_out : Bool → Option ℕ → Bool
is_out true stock = false
is_out false none = false
is_out false (some n) = n == 0

pub shows_out_of_stock : {F : Type 0} → List StockIssue → ModalItem F → Bool
shows_out_of_stock issues i = is_out (is_pending i) (get_available_stock issues i)

module _ {F C : Type 0} (issues : List StockIssue) where
  pub minus : ModalItem F → Ack → Reply C → CartState C → CartState C
  unfolding shows_out_of_stock
  minus i ack reply s =
      if shows_out_of_stock issues i
      then s
      else update_quantity_variant i.product_id (some i.variant_id)
          (pos (max 1 (get_or i.quantity 1 - 1))) ack reply s

  pub plus : ModalItem F → Ack → Reply C → CartState C → CartState C
  unfolding shows_out_of_stock
  plus i ack reply s =
      if shows_out_of_stock issues i
      then s
      else update_quantity_variant i.product_id (some i.variant_id) (pos (get_or i.quantity 1 + 1))
          ack reply s

-- The item with its cart, which is fetched once more, and the window's message.
pub remove_item :
    {F C : Type 0}
    → ModalItem F
    → Ack
    → Reply C
    → Reply C
    → CartState C × Option String
    → CartState C × Option String
remove_item i ack reply again (s, message) =
    if i.product_id == 0 || i.variant_id == 0
    then (s, some "Error: faltan datos para eliminar el producto.")
    else (fetch_cart again (remove_from_cart i.product_id (some i.variant_id) ack reply s), message)

-- Which issues are shown: of an item of the cart that is not pending.
module _ {F : Type 0} (items : List (ModalItem F)) where
  abbrev has_shown_item : Option (ModalItem F) → Bool
  has_shown_item none = false
  has_shown_item (some i) = not (is_pending i)

  abbrev cart_item : StockIssue → Option (ModalItem F)
  cart_item s = find (λ i. i.product_id == s.product_id && i.variant_id == s.variant_id) items

  is_shown : IssueType → StockIssue → Bool
  is_shown limited_stock s = false
  is_shown out_of_stock s = has_shown_item (cart_item s)
  is_shown insufficient_stock s = has_shown_item (cart_item s)

  pub shown_issues : List StockIssue → List StockIssue
  unfolding is_shown
  shown_issues issues = keep (λ s. is_shown s.issue_type s) issues

-- The buttons of an issue.
pub remove_issue : {C : Type 0} → StockIssue → Ack → Reply C → CartState C → CartState C
remove_issue issue ack reply s =
    remove_from_cart issue.product_id (some issue.variant_id) ack reply s

pub adjust_issue : {C : Type 0} → StockIssue → Ack → Reply C → CartState C → CartState C
adjust_issue issue ack reply s =
    update_quantity_variant issue.product_id (some issue.variant_id) (pos issue.available_stock) ack
      reply s
