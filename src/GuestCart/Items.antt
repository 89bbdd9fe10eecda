-- ===== src/GuestCart/Items.antt =====
-- The items of front/src/utils/guestCart.ts and what its operations do to a list of them.
use go_moda_mayor.Prelude.{
  ℕ, Bool, ◌&&◌, Option, none, some, List, [], ◌∷◌, String, ◌==◌, if◌then◌else◌,
}
use go_moda_mayor.Prelude.Int.{ℤ, ◌+ℤ◌}

-- An optional property of an object: not there, there and undefined, or there with a value.
pub data Property (A : Type 0) : Type 0 where
  absent undef : Property A
  value : A → Property A

pub record Metadata (F : Type 0) : Type 0 where
  pub product_name : Property String
  pub variant_name : Property String
  pub image_url : Property String
  pub wholesale_price : Property F
  pub color : Property String
  pub size : Property String

pub record GuestCartItem (F : Type 0) : Type 0 where
  pub product_id : ℕ
  pub variant_id : ℕ
  pub quantity : ℤ
  pub metadata : Option (Metadata F)

-- One property of `{ ...old, ...new }`.
abbrev pub over : {A : Type 0} → Property A → Property A → Property A
over old absent = old
over old undef = undef
over old (value a) = value a

-- One property after `JSON.parse(JSON.stringify(...))`.
abbrev pub clean_property : {A : Type 0} → Property A → Property A
clean_property undef = absent
clean_property absent = absent
clean_property (value a) = value a

module _ {F : Type 0} where
  abbrev pub clean_metadata : Option (Metadata F) → Option (Metadata F)
  clean_metadata none = none
  clean_metadata (some m) = some (record {
    product_name = clean_property m.product_name;
    variant_name = clean_property m.variant_name;
    image_url = clean_property m.image_url;
    wholesale_price = clean_property m.wholesale_price;
    color = clean_property m.color;
    size = clean_property m.size;
  })

  abbrev pub clean : GuestCartItem F → GuestCartItem F
  clean i = record i { metadata = clean_metadata i.metadata }

  unfoldable pub merge_metadata : Option (Metadata F) → Option (Metadata F) → Option (Metadata F)
  merge_metadata old none = old
  merge_metadata none (some new) = some new
  merge_metadata (some old) (some new) = some (record {
    product_name = over old.product_name new.product_name;
    variant_name = over old.variant_name new.variant_name;
    image_url = over old.image_url new.image_url;
    wholesale_price = over old.wholesale_price new.wholesale_price;
    color = over old.color new.color;
    size = over old.size new.size;
  })

  abbrev pub is_key : ℕ → ℕ → GuestCartItem F → Bool
  is_key product variant i = i.product_id == product && i.variant_id == variant

  abbrev pub add_up : GuestCartItem F → GuestCartItem F → GuestCartItem F
  add_up old item = record old {
    quantity = old.quantity +ℤ item.quantity;
    metadata = merge_metadata old.metadata item.metadata;
  }

  -- `findIndex`, then an update of that item or a `push`.
  unfoldable pub add_item : GuestCartItem F → List (GuestCartItem F) → List (GuestCartItem F)
  add_item item [] = item ∷ []
  add_item item (i ∷ is) =
      if is_key item.product_id item.variant_id i then add_up i item ∷ is else i ∷ add_item item is

  -- `item.quantity = quantity` at the item that `find` returned.
  unfoldable pub set_quantity : ℕ → ℕ → ℤ → List (GuestCartItem F) → List (GuestCartItem F)
  set_quantity product variant quantity [] = []
  set_quantity product variant quantity (i ∷ is) =
      if is_key product variant i
      then record i { quantity = quantity } ∷ is
      else i ∷ set_quantity product variant quantity is
