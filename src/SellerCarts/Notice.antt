-- ===== src/SellerCarts/Notice.antt =====
-- The notice of a change of tier in front/src/app/vendedora/carritos/page.tsx.
use go_moda_mayor.Prelude.{◌≡◌, true, false, Option, some, [], ◌∷◌, String, arith, str_eq, truthy}
use go_moda_mayor.SellerCarts.{SellerCart, SellerPage, watch_tiers, see_all, see_tier, see}

-- With two carts at tiers of different names, none of them empty, the notice of a change of tier is
-- shown when the same two carts are fetched for the second time, although no tier has changed.
pub steady_tiers_announced :
    (a b : SellerCart) (m n : String) (old new : Option String) (s : SellerPage)
    → s.carts ≡ a ∷ b ∷ []
    → a.current_tier ≡ some (some m, old)
    → b.current_tier ≡ some (some n, new)
    → truthy (some m) ≡ true
    → truthy (some n) ≡ true
    → str_eq n m ≡ false
    → (watch_tiers (watch_tiers s)).tier_just_changed ≡ true
unfolding watch_tiers see_all see_tier see
steady_tiers_announced a b m n old new s two at_m at_n full_m full_n apart =
    rw (two, at_m, at_n, full_m, full_n, apart) (ground arith)
