-- ===== src/Registration/Tests.antt =====
-- Runs of front/src/app/registro/page.tsx, and its theorems at concrete inputs.
use go_moda_mayor.Prelude.{
  ◌+◌, ◌≡◌, refl, false, not, ◌||◌, none, some, ◌==◌, if◌then◌else◌, is_some,
}
use go_moda_mayor.Net.{refused, accepted}
use go_moda_mayor.Registration.{
  FormState, Registered, clean_phone, is_valid, size, handle_phone_change, handle_submit,
  remove_marks, drop_54,
}
use go_moda_mayor.Registration.Submit.{handle_submit-handle_phone_change}

cleans : clean_phone "+54 9 (11) 1234-5678" ≡ "91112345678"
unfolding clean_phone remove_marks drop_54
cleans = refl

abbrev blank : FormState
blank = record {
  phone = "";
  phone_error = none;
  loading = false;
  error = none;
  show_address_setup = false;
  registered_user_id = none;
  success_message = none;
  token = none;
  stored_user = none;
  sent = 0;
  changed = 0;
}

abbrev new_user : Registered
new_user = record { token = some "t"; user = some (some 3, none) }

handle_submit-handle_phone_change_example :
    let typed = handle_phone_change "+54 11 1234-5678" blank in
    let t = handle_submit (accepted new_user) (refused 401 none) typed in
    (t.sent ≡ (if is_valid (clean_phone "+54 11 1234-5678") then 0 + 1 else 0))
    × (is_some typed.phone_error
        ≡ not (
            is_valid (clean_phone "+54 11 1234-5678")
            || size (clean_phone "+54 11 1234-5678") == 0))
    × (t.loading ≡ false)
handle_submit-handle_phone_change_example =
    handle_submit-handle_phone_change (accepted new_user) (refused 401 none) "+54 11 1234-5678"
      blank refl
