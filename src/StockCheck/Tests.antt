-- ===== src/StockCheck/Tests.antt =====
-- Runs of front/src/hooks/useCartStockCheck.ts.
use go_moda_mayor.Prelude.{◌≡◌, refl, true, false, none, some, []}
use go_moda_mayor.Net.{accepted}
use go_moda_mayor.StockCheck.{StockState, StockCheckResult, check_stock, settle}

abbrev before : StockState
before = record {
  token = some "t";
  stock_issues = [];
  all_available = true;
  loading = false;
  error = some "x";
}

abbrev answer : StockCheckResult
answer = record {
  items_with_issues = none;
  all_available = false;
  total_items = 2;
  issues_count = 1;
}

forgets_error :
    check_stock (accepted answer) before ≡ record before { all_available = false; error = none }
unfolding check_stock settle
forgets_error = refl
