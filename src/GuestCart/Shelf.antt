-- ===== src/GuestCart/Shelf.antt =====
-- A storage for tests, which keeps the guest's cart itself as its text.
use go_moda_mayor.Prelude.{ℕ, refl, true, false, some, List, map}
use go_moda_mayor.GuestCart.{Store, IsJson}
use go_moda_mayor.GuestCart.Items.{GuestCartItem, clean}
use go_moda_mayor.GuestCart.Quantity.{HasRoom}

instance abbrev pub shelf : Store ℕ (List (GuestCartItem ℕ))
shelf = record {
  stringify = λ items. map clean items;
  parse = λ items. some items;
  is_empty = λ items. false;
  accepts = λ items. true;
}

pub shelf-IsJson : IsJson ℕ (List (GuestCartItem ℕ)) shelf
shelf-IsJson = record { parse-stringify = λ items. refl; stringify_nonempty = λ items. refl }

pub shelf-HasRoom : HasRoom shelf
shelf-HasRoom items = refl
