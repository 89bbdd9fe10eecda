-- ===== src/Registration.antt =====
-- front/src/app/registro/page.tsx: the form for a new user, with the check of the phone number.
pub mod Phone
pub mod Submit
mod Tests
use Prim.Native.Char.{Char, code}
use Prim.Native.String.{[], ◌∷◌}
use go_moda_mayor.Prelude.{
  ℕ, zero, suc, ◌+◌, Bool, true, false, not, ◌&&◌, ◌||◌, Option, none, some, String, ltb, leb, ◌==◌,
  if◌then◌else◌, truthy, text_or, is_some,
}
use go_moda_mayor.Net.{Reply, failed, refused, garbled, accepted}

abbrev between : ℕ → ℕ → ℕ → Bool
between a b n = leb a n && leb n b

-- `\s`: the language's white space and ends of lines.
abbrev is_space : ℕ → Bool
is_space n =
    between 9 13 n
    || n == 32
    || n == 160
    || n == 5760
    || between 8192 8202 n
    || n == 8232
    || n == 8233
    || n == 8239
    || n == 8287
    || n == 12288
    || n == 65279

-- `[\s\-\(\)\+]`
abbrev pub is_mark : Char → Bool
is_mark c = is_space (code c) || code c == 45 || code c == 40 || code c == 41 || code c == 43

-- `\d`
abbrev pub is_digit : Char → Bool
is_digit c = between 48 57 (code c)

remove_marks : String → String
remove_marks [] = []
remove_marks (c ∷ s) = if is_mark c then remove_marks s else c ∷ remove_marks s

-- `replace(/^54/, '')`
drop_54 : String → String
drop_54 [] = []
drop_54 (a ∷ []) = a ∷ []
drop_54 (a ∷ b ∷ s) = if code a == 53 && code b == 52 then s else a ∷ b ∷ s

pub clean_phone : String → String
unfolding remove_marks drop_54
clean_phone value = drop_54 (remove_marks value)

abbrev pub all_digits : String → Bool
all_digits [] = true
all_digits (c ∷ s) = is_digit c && all_digits s

-- The number of characters, which is the language's `length` for a text of digits.
abbrev pub size : String → ℕ
size [] = 0
size (c ∷ s) = suc (size s)

-- `/^\d{10,11}$/`
pub is_valid : String → Bool
is_valid phone = all_digits phone && between 10 11 (size phone)

pub phone_error_of : String → Option String
phone_error_of [] = none
phone_error_of (c ∷ s) =
    if not (all_digits (c ∷ s))
    then some "El teléfono solo debe contener números"
    else if ltb (size (c ∷ s)) 10
    then some "El teléfono debe tener al menos 10 dígitos"
    else if ltb 11 (size (c ∷ s))
    then some "El teléfono no debe tener más de 11 dígitos"
    else none

-- The form, the items `token` and `user` of the storage (of the latter the identifier), the numbers
-- that were sent to be registered, and how often `auth:changed` was sent.
pub record FormState : Type 0 where
  pub phone : String
  pub phone_error : Option String
  pub loading : Bool
  pub error : Option String
  pub show_address_setup : Bool
  pub registered_user_id : Option ℕ
  pub success_message : Option String
  pub token : Option String
  pub stored_user : Option (Option ℕ)
  pub sent : ℕ
  pub changed : ℕ

-- An empty text has an empty clean one.
pub handle_phone_change : String → FormState → FormState
unfolding phone_error_of
handle_phone_change value s = record s {
  phone = value;
  phone_error = phone_error_of (clean_phone value);
}

-- The JSON of an answer, as far as it is read: the token, and the user with the two spellings of its
-- identifier.
pub record Registered : Type 0 where
  pub token : Option String
  pub user : Option (Option ℕ × Option ℕ)

-- `id || ID`
abbrev or_id : Option ℕ → Option ℕ → Option ℕ
or_id none upper = upper
or_id (some zero) upper = upper
or_id (some (suc n)) upper = some (suc n)

fail : String → FormState → FormState
fail m s = record s { error = some (text_or (some m) "Error desconocido"); loading = false }

-- The event, the message and the next screen.
finish : FormState → FormState
finish s = record s {
  changed = s.changed + 1;
  success_message = some "¡Registro exitoso! Ahora puedes configurar tu dirección.";
  show_address_setup = true;
  loading = false;
}

store_user : Option (Option ℕ × Option ℕ) → FormState → FormState
store_user none s = s
store_user (some (lower, upper)) s = record s {
  stored_user = some lower;
  registered_user_id = or_id lower upper;
}

-- Of the answer to the login only `id` is read.
store_login_user : Option (Option ℕ × Option ℕ) → FormState → FormState
store_login_user none s = s
store_login_user (some (lower, upper)) s = record s {
  stored_user = some lower;
  registered_user_id = lower;
}

store_token : Option String → FormState → FormState
store_token token s = if truthy token then record s { token = token } else s

store_login : Registered → FormState → FormState
unfolding store_login_user store_token
store_login d s = store_login_user d.user (store_token d.token s)

-- The login that follows a registration without a token.
after_login : Reply Registered → FormState → FormState
unfolding fail finish store_login
after_login (failed m) s = fail m s
after_login (refused status error) s = finish s
after_login (garbled m) s = fail m s
after_login (accepted d) s = finish (store_login d s)

after_data : Registered → Reply Registered → FormState → FormState
unfolding finish store_user after_login
after_data d login s =
    if truthy d.token
    then finish (store_user d.user (record s { token = d.token }))
    else after_login login s

-- An answer that is `ok` and not JSON counts as an empty one.
after_register : Reply Registered → Reply Registered → FormState → FormState
unfolding fail after_data
after_register (failed m) login s = fail m s
after_register (refused status error) login s = fail (text_or error "No se pudo registrar") s
after_register (garbled m) login s = after_data (record { token = none; user = none }) login s
after_register (accepted d) login s = after_data d login s

pub handle_submit : Reply Registered → Reply Registered → FormState → FormState
unfolding after_register
handle_submit register login s =
    if not (is_valid (clean_phone s.phone))
    then record s { error = some "Por favor ingresa un número de teléfono válido (10-11 dígitos)" }
    else if truthy s.phone_error
    then record s { error = some "Por favor corrige los errores antes de continuar" }
    else after_register register login
        (record s { loading = true; error = none; sent = s.sent + 1 })
