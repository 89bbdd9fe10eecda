-- ===== src/StockCheck.antt =====
-- front/src/hooks/useCartStockCheck.ts: whether the items of the cart are in stock.
pub mod Laws
mod Tests
use go_moda_mayor.Prelude.{
  ℕ, Bool, true, false, Option, none, some, List, [], String, ◌==◌, if◌then◌else◌, truthy, get_or,
}
use go_moda_mayor.Net.{Reply, failed, refused, garbled, accepted}

pub data IssueType : Type 0 where
  out_of_stock insufficient_stock limited_stock : IssueType

pub record StockIssue : Type 0 where
  pub cart_item_id : ℕ
  pub product_id : ℕ
  pub product_name : String
  pub variant_id : ℕ
  pub variant_name : String
  pub requested_qty : ℕ
  pub available_stock : ℕ
  pub issue_type : IssueType
  pub suggested_action : String
  pub image_url : String

-- `items_with_issues` may be missing or null.
pub record StockCheckResult : Type 0 where
  pub items_with_issues : Option (List StockIssue)
  pub all_available : Bool
  pub total_items : ℕ
  pub issues_count : ℕ

pub record StockState : Type 0 where
  pub token : Option String
  pub stock_issues : List StockIssue
  pub all_available : Bool
  pub loading : Bool
  pub error : Option String

settle : Reply StockCheckResult → StockState → StockState
settle (failed m) s = record s { error = some m; loading = false }
settle (refused status error) s =
    if status == 401
    then record s { stock_issues = []; all_available = true; loading = false }
    else record s { error = some "Error al verificar stock"; loading = false }
settle (garbled m) s = record s { error = some m; loading = false }
settle (accepted r) s = record s {
  stock_issues = get_or r.items_with_issues [];
  all_available = r.all_available;
  loading = false;
}

pub check_stock : Reply StockCheckResult → StockState → StockState
unfolding settle
check_stock reply s =
    if truthy s.token
    then settle reply (record s { loading = true; error = none })
    else record s { stock_issues = []; all_available = true; loading = false; error = none }
