-- ===== src/Inventory/Load/Posted.antt =====
-- A load of front/src/app/admin/inventario/page.tsx only reads.
use go_moda_mayor.Net.{Reply, failed, refused, garbled, accepted}
use go_moda_mayor.Orders.{Result, ok, thrown}
use go_moda_mayor.Prelude.{◌≡◌, refl, List}
use go_moda_mayor.Inventory.{InventoryProduct}
use go_moda_mayor.Inventory.Load.{
  Items, missing, no_array, items, Inquiry, InventoryPage, shows_products, after_products,
  load_inventory,
}

shows_products-posted :
    (r : Result (List InventoryProduct)) (s : InventoryPage)
    → (shows_products r s).posted ≡ s.posted
unfolding shows_products
shows_products-posted (ok ps) s = refl
shows_products-posted (thrown m) s = refl

after_products-posted :
    (q : Inquiry) (r : Reply Items) (s : InventoryPage) → (after_products q r s).posted ≡ s.posted
unfolding after_products
after_products-posted q (failed m) s = refl
after_products-posted q (refused status m) s = refl
after_products-posted q (garbled m) s = refl
after_products-posted q (accepted missing) s = refl
after_products-posted q (accepted no_array) s = refl
after_products-posted q (accepted (items ps)) s = shows_products-posted _ s

-- A load posts nothing.
pub load_inventory-posted :
    (q : Inquiry) (s : InventoryPage) → (load_inventory q s).posted ≡ s.posted
unfolding load_inventory
load_inventory-posted q s = after_products-posted q q.products s
