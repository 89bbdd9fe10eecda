-- ===== src/StockCheck/Laws.antt =====
-- What a check of front/src/hooks/useCartStockCheck.ts leaves, and when it can report an error.
use go_moda_mayor.Prelude.{
  ◌≡◌, refl, ◌≢◌, true, false, none, some, [], arith, truthy, get_or, inl, inr, ◌⊎◌, Bool-cases,
}
use go_moda_mayor.Net.{Reply, failed, refused, garbled, accepted}
use go_moda_mayor.StockCheck.{StockCheckResult, StockState, settle, check_stock}

-- The list of issues and the answer are as `r` has them.
abbrev pub Reports : StockCheckResult → StockState → Type 0
Reports r t = (t.stock_issues ≡ get_or r.items_with_issues []) × (t.all_available ≡ r.all_available)

abbrev pub IsCleared : StockState → Type 0
IsCleared t = (t.stock_issues ≡ []) × (t.all_available ≡ true) × (t.error ≡ none)

-- For each reply to a check with a token.
abbrev pub Outcome : Reply StockCheckResult → StockState → StockState → Type 0
Outcome (accepted r) s t = Reports r t × (t.error ≡ none)
Outcome (refused status error) s t =
    ((status ≡ 401) × IsCleared t)
    ⊎ ((status ≢ 401)
        × (t.stock_issues ≡ s.stock_issues)
        × (t.all_available ≡ s.all_available)
        × (t.error ≡ some "Error al verificar stock"))
Outcome (failed m) s t =
    (t.stock_issues ≡ s.stock_issues) × (t.all_available ≡ s.all_available) × (t.error ≡ some m)
Outcome (garbled m) s t =
    (t.stock_issues ≡ s.stock_issues) × (t.all_available ≡ s.all_available) × (t.error ≡ some m)

settle-Outcome :
    (reply : Reply StockCheckResult) (s : StockState)
    → s.error ≡ none
    → Outcome reply s (settle reply s) × ((settle reply s).loading ≡ false)
unfolding settle
settle-Outcome (failed m) s clear = ((refl, refl, refl), refl)
settle-Outcome (refused status error) s clear = ground arith
settle-Outcome (garbled m) s clear = ((refl, refl, refl), refl)
settle-Outcome (accepted r) s clear = (((refl, refl), clear), refl)

from_begin :
    (reply : Reply StockCheckResult) (s t : StockState)
    → Outcome reply (record s { loading = true; error = none }) t
    → Outcome reply s t
from_begin (failed m) s t o = o
from_begin (refused status error) s t o = o
from_begin (garbled m) s t o = o
from_begin (accepted r) s t o = o

-- Without a token a check clears the issues and the error; with one, an answer replaces the issues,
-- a 401 clears them, and any other failure keeps them and sets the error. Nothing is loading then.
pub check_stock-Outcome :
    (reply : Reply StockCheckResult) (s : StockState)
    → let t = check_stock reply s in
      ((truthy s.token ≡ false) × IsCleared t ⊎ (truthy s.token ≡ true) × Outcome reply s t)
      × (t.loading ≡ false)
unfolding check_stock
check_stock-Outcome reply s = elim (Bool-cases (truthy s.token)) [
  | inr e ↦ rw e (inl (refl, (refl, refl, refl)), refl)
  | inl e ↦
      let b : StockState = record s { loading = true; error = none } in
      let (outcome, done) = settle-Outcome reply b refl in
      rw e (inr (refl, from_begin reply s (settle reply b) outcome), done)
]
