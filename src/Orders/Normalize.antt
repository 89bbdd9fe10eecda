-- ===== src/Orders/Normalize.antt =====
-- `normalizeOrder` of front/src/utils/api.ts reads an order back from any mixture of the spellings of its
-- properties.
use go_moda_mayor.Prelude.{◌≡◌, refl, ℕ, Option, none, some, List, [], ◌∷◌, map, or_else, String}
use go_moda_mayor.Orders.{
  Spelled, OrderUser, RawItem, RawItems, absent, array, RawOrder, OrderItem, Order, either,
  user_id_of, choose_items, normalize_item, normalize_items, normalize_order,
}

-- How a property is named: with a capital letter, without one, or both, where the one without may have
-- another value.
pub data Spelling (A : Type 0) : Type 0 where
  capital small : Spelling A
  both : Option A → Spelling A

abbrev pub spell : {A : Type 0} → Spelling A → Option A → Spelled A
spell capital a = record { upper = a; lower = none }
spell small a = record { upper = none; lower = a }
spell (both other) none = record { upper = none; lower = none }
spell (both other) (some a) = record { upper = some a; lower = other }

or_else-none : {A : Type 0} (o : Option A) → or_else o none ≡ o
or_else-none none = refl
or_else-none (some a) = refl

either-spell : {A : Type 0} (c : Spelling A) (a : Option A) → either (spell c a) ≡ a
either-spell capital a = or_else-none a
either-spell small a = refl
either-spell (both other) none = refl
either-spell (both other) (some a) = refl

-- The spelling of each property; `ids` are the identifiers that stand in the product, if it is there.
pub record ItemNames (F P : Type 0) : Type 0 where
  pub id : Spelling ℕ
  pub product_id : Spelling ℕ
  pub product : Spelling P
  pub ids : Spelled ℕ
  pub variant_id : Spelling ℕ
  pub variant_size : Spelling String
  pub variant_color : Spelling String
  pub quantity : Spelling ℕ
  pub price : Spelling F

-- `other_items` stands under the name that is not that of the items; `camel` is `createdAt`.
pub record OrderNames (F P : Type 0) : Type 0 where
  pub id : Spelling ℕ
  pub user_id : Spelling ℕ
  pub user : Spelling OrderUser
  pub assigned_to : Spelling ℕ
  pub assigned_to_user : Spelling OrderUser
  pub status : Spelling String
  pub total : Spelling F
  pub items : Spelling (RawItems F P)
  pub item : ItemNames F P
  pub created_at : Spelling String
  pub camel : Option String

module _ {F P : Type 0} where
  abbrev item_in : ItemNames F P → OrderItem F P → RawItem F P
  item_in c it = record {
    id = spell c.id it.id;
    product_id = spell c.product_id it.product_id;
    product = spell c.product it.product;
    ids_of_product = c.ids;
    variant_id = spell c.variant_id it.variant_id;
    variant_size = spell c.variant_size it.variant_size;
    variant_color = spell c.variant_color it.variant_color;
    quantity = spell c.quantity it.quantity;
    price = spell c.price it.price;
  }

  abbrev or_absent : Option (RawItems F P) → RawItems F P
  or_absent none = absent
  or_absent (some r) = r

  abbrev upper_of : Spelling (RawItems F P) → RawItems F P → RawItems F P
  upper_of capital r = r
  upper_of small r = absent
  upper_of (both other) r = r

  abbrev lower_of : Spelling (RawItems F P) → RawItems F P → RawItems F P
  lower_of capital r = absent
  lower_of small r = r
  lower_of (both other) r = or_absent other

  -- The JSON of an order.
  abbrev pub order_in : OrderNames F P → Order F P → RawOrder F P
  order_in c o = record {
    id = spell c.id o.id;
    user_id = spell c.user_id o.user_id;
    user = spell c.user o.user;
    assigned_to = spell c.assigned_to o.assigned_to;
    assigned_to_user = spell c.assigned_to_user o.assigned_to_user;
    status = spell c.status o.status;
    total = spell c.total (some o.total);
    upper_items = upper_of c.items (array (map (item_in c.item) o.items));
    lower_items = lower_of c.items (array (map (item_in c.item) o.items));
    created_at = spell c.created_at o.created_at;
    camel_created_at = c.camel;
  }

  -- A product's number that is missing is looked for in the product.
  abbrev pub item_expected : ItemNames F P → OrderItem F P → OrderItem F P
  item_expected c it = record it { product_id = or_else it.product_id (either c.ids) }

  -- A user's number that is missing is looked for in a user that is spelled small, and a missing date
  -- under `createdAt`.
  abbrev pub expected : OrderNames F P → Order F P → Order F P
  expected c o = record o {
    user_id = or_else o.user_id (user_id_of (spell c.user o.user).lower);
    items = map (item_expected c.item) o.items;
    created_at = or_else o.created_at c.camel;
  }

  normalize_item-item_in :
      (c : ItemNames F P) (it : OrderItem F P) → normalize_item (item_in c it) ≡ item_expected c it
  unfolding normalize_item
  normalize_item-item_in c it =
      rw
        (
          either-spell c.id it.id,
          either-spell c.product_id it.product_id,
          either-spell c.product it.product,
          either-spell c.variant_id it.variant_id,
          either-spell c.variant_size it.variant_size,
          either-spell c.variant_color it.variant_color,
          either-spell c.quantity it.quantity,
          either-spell c.price it.price,
        )
        refl

  map-normalize_item :
      (c : ItemNames F P) (items : List (OrderItem F P))
      → map normalize_item (map (item_in c) items) ≡ map (item_expected c) items
  map-normalize_item c [] = refl
  map-normalize_item c (it ∷ its) = rw (normalize_item-item_in c it, map-normalize_item c its) refl

  choose_items_lem :
      (c : Spelling (RawItems F P)) (items : List (RawItem F P))
      → choose_items (upper_of c (array items)) (lower_of c (array items)) ≡ array items
  choose_items_lem capital items = refl
  choose_items_lem small items = refl
  choose_items_lem (both other) items = refl

  -- Whichever spelling the server gives to each property of an order and of its items, the order is
  -- read back as it is, and where a property stands under both names, the value under the capital one
  -- is read. Only a missing number of the user is filled in, from a user that is spelled small, that of
  -- a product, from the product, and a missing date, from `createdAt`.
  pub normalize_order-order_in :
      (zero : F) (c : OrderNames F P) (o : Order F P)
      → normalize_order zero (order_in c o) ≡ expected c o
  unfolding normalize_order normalize_items
  normalize_order-order_in zero c o =
      rw
        (
          either-spell c.id o.id,
          either-spell c.user_id o.user_id,
          either-spell c.user o.user,
          either-spell c.assigned_to o.assigned_to,
          either-spell c.assigned_to_user o.assigned_to_user,
          either-spell c.status o.status,
          either-spell c.total (some o.total),
          choose_items_lem c.items (map (item_in c.item) o.items),
          map-normalize_item c.item o.items,
          either-spell c.created_at o.created_at,
        )
        refl
