-- ===== src/Orders.antt =====
-- The orders of front/src/utils/api.ts: the shape that the client gives them, the texts of errors,
-- and the requests for them. The server's JSON is read as far as the code looks at it.
pub mod Normalize
pub mod AuthText
pub mod Errors
use go_moda_mayor.Prelude.{
  ℕ, Bool, true, false, ◌&&◌, ◌||◌, Option, none, some, List, [], ◌∷◌, map, String, ◌==◌,
  if◌then◌else◌, truthy, text_or, get_or, or_else, concat,
}
use go_moda_mayor.Prelude.Decimal.{show_ℕ}
use go_moda_mayor.Orders.AuthText.{auth_error}

-- A property with the two spellings that the server uses; `none` is undefined or null.
pub record Spelled (A : Type 0) : Type 0 where
  pub upper : Option A
  pub lower : Option A

pub record OrderUser : Type 0 where
  pub id : Spelled ℕ
  pub name : Option String
  pub email : Option String

pub record RawItem (F P : Type 0) : Type 0 where
  pub id : Spelled ℕ
  pub product_id : Spelled ℕ
  -- `Product` and `product`, with the identifiers of the latter.
  pub product : Spelled P
  pub ids_of_product : Spelled ℕ
  pub variant_id : Spelled ℕ
  pub variant_size : Spelled String
  pub variant_color : Spelled String
  pub quantity : Spelled ℕ
  pub price : Spelled F

-- The value of `items`: undefined or null, no array, or an array.
pub data RawItems (F P : Type 0) : Type 0 where
  absent not_array : RawItems F P
  array : List (RawItem F P) → RawItems F P

pub record RawOrder (F P : Type 0) : Type 0 where
  pub id : Spelled ℕ
  pub user_id : Spelled ℕ
  pub user : Spelled OrderUser
  pub assigned_to : Spelled ℕ
  pub assigned_to_user : Spelled OrderUser
  pub status : Spelled String
  pub total : Spelled F
  pub upper_items : RawItems F P
  pub lower_items : RawItems F P
  pub created_at : Spelled String
  -- `createdAt`
  pub camel_created_at : Option String

pub record OrderItem (F P : Type 0) : Type 0 where
  pub id : Option ℕ
  pub product_id : Option ℕ
  pub product : Option P
  pub variant_id : Option ℕ
  pub variant_size : Option String
  pub variant_color : Option String
  pub quantity : Option ℕ
  pub price : Option F

-- `ID` and `id` of the result are one value.
pub record Order (F P : Type 0) : Type 0 where
  pub id : Option ℕ
  pub user_id : Option ℕ
  pub user : Option OrderUser
  pub assigned_to : Option ℕ
  pub assigned_to_user : Option OrderUser
  pub status : Option String
  pub total : F
  pub items : List (OrderItem F P)
  pub created_at : Option String

-- `o.X ?? o.x`
abbrev pub either : {A : Type 0} → Spelled A → Option A
either s = or_else s.upper s.lower

-- `u?.ID ?? u?.id`
abbrev pub user_id_of : Option OrderUser → Option ℕ
user_id_of none = none
user_id_of (some u) = either u.id

module _ {F P : Type 0} where
  pub normalize_item : RawItem F P → OrderItem F P
  normalize_item it = record {
    id = either it.id;
    product_id = or_else (either it.product_id) (either it.ids_of_product);
    product = either it.product;
    variant_id = either it.variant_id;
    variant_size = either it.variant_size;
    variant_color = either it.variant_color;
    quantity = either it.quantity;
    price = either it.price;
  }

  -- `o.Items ?? o.items`
  abbrev pub choose_items : RawItems F P → RawItems F P → RawItems F P
  choose_items absent lower = lower
  choose_items upper lower = upper

  normalize_items : RawItems F P → List (OrderItem F P)
  normalize_items absent = []
  normalize_items not_array = []
  normalize_items (array items) = map normalize_item items

  -- `zero` is the number 0.
  pub normalize_order : F → RawOrder F P → Order F P
  unfolding normalize_items
  normalize_order zero o = record {
    id = either o.id;
    user_id = or_else (either o.user_id) (user_id_of o.user.lower);
    user = either o.user;
    assigned_to = either o.assigned_to;
    assigned_to_user = either o.assigned_to_user;
    status = either o.status;
    total = get_or (either o.total) zero;
    items = normalize_items (choose_items o.upper_items o.lower_items);
    created_at = or_else (either o.created_at) o.camel_created_at;
  }

-- What is read of the body of an answer that is not `ok`: JSON, with `message` and `error`, or no
-- JSON, with the text that `res.text()` gives after that, if it gives one.
pub data ErrorBody : Type 0 where
  json : Option String → Option String → ErrorBody
  not_json : Option String → ErrorBody

abbrev status_line : ℕ → String → String
status_line status status_text = text_or (some status_text) (concat ("HTTP " ∷ show_ℕ status ∷ []))

pub parse_response_error : ℕ → String → ErrorBody → String
parse_response_error status status_text (json message error) =
    if truthy message || truthy error
    then get_or (or_else message error) ""
    else status_line status status_text
parse_response_error status status_text (not_json text) =
    text_or text (status_line status status_text)

-- A value, or the message of the error that is thrown.
pub data Result (A : Type 0) : Type 0 where
  ok : A → Result A
  thrown : String → Result A

-- A request whose answer the code reads in full.
pub data Response (A : Type 0) : Type 0 where
  rejected : String → Response A
  bad : ℕ → String → ErrorBody → Response A
  unreadable : String → Response A
  good : A → Response A

abbrev pub is_auth_status : ℕ → Bool
is_auth_status status = status == 401 || status == 403

-- The error that is thrown for an answer that is not `ok`.
pub refusal : Bool → String → ℕ → String → ErrorBody → String
refusal with_token fallback status status_text body =
    let message = parse_response_error status status_text body in
    if with_token && is_auth_status status
    then auth_error status message
    else text_or (some message) fallback

module _ {F P : Type 0} where
  orders_of : F → Option (List (RawOrder F P)) → List (Order F P)
  orders_of zero none = []
  orders_of zero (some raw) = map (normalize_order zero) raw

  read_orders : F → Bool → Response (Option (List (RawOrder F P))) → Result (List (Order F P))
  unfolding orders_of
  read_orders zero with_token (rejected m) = thrown m
  read_orders zero with_token (bad status status_text body) =
      thrown (refusal with_token "Error al obtener pedidos" status status_text body)
  read_orders zero with_token (unreadable m) = thrown m
  read_orders zero with_token (good raw) = ok (orders_of zero raw)

  -- `good none` is JSON that is no array. The token is the argument or the storage's.
  pub fetch_orders :
      F
      → Option String
      → Option String
      → Response (Option (List (RawOrder F P)))
      → Result (List (Order F P))
  unfolding read_orders
  fetch_orders zero token stored response =
      read_orders zero (truthy (or_else token stored)) response

  with_user : F → Option ℕ → Response (Option (List (RawOrder F P))) → Result (List (Order F P))
  unfolding read_orders
  with_user zero none response = thrown "Perfil inválido"
  with_user zero (some id) response =
      if id == 0 then thrown "Perfil inválido" else read_orders zero true response

  after_profile :
      F → Response (Spelled ℕ) → Response (Option (List (RawOrder F P))) → Result (List (Order F P))
  unfolding with_user
  after_profile zero (rejected m) response = thrown m
  after_profile zero (bad status status_text body) response =
      thrown (refusal true "Error al obtener perfil" status status_text body)
  after_profile zero (unreadable m) response = thrown m
  after_profile zero (good ids) response = with_user zero (either ids) response

  -- First the profile, then the orders of its user.
  pub fetch_my_orders :
      F
      → Option String
      → Response (Spelled ℕ)
      → Response (Option (List (RawOrder F P)))
      → Result (List (Order F P))
  unfolding after_profile
  fetch_my_orders zero stored profile response =
      if truthy stored then after_profile zero profile response else thrown "No autenticado"

read_update : Bool → Response (Unit {0}) → Result Bool
read_update with_token (rejected m) = thrown m
read_update with_token (bad status status_text body) =
    thrown (refusal with_token "Error updating order status" status status_text body)
read_update with_token (unreadable m) = ok true
read_update with_token (good u) = ok true

-- The body of an answer that is `ok` is not read.
pub update_order_status : Option String → Option String → Response (Unit {0}) → Result Bool
unfolding read_update
update_order_status token stored response = read_update (truthy (or_else token stored)) response
