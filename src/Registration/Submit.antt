-- ===== src/Registration/Submit.antt =====
-- What is sent to be registered by front/src/app/registro/page.tsx.
use go_moda_mayor.Prelude.{
  ℕ, ◌+◌, ◌≡◌, refl, ◌∙◌, true, false, not, ◌||◌, Option, none, some, String, ◌==◌, if◌then◌else◌,
  if_elim, truthy, is_some, Bool-cases, inl, inr,
}
use go_moda_mayor.Net.{Reply, failed, refused, garbled, accepted}
use go_moda_mayor.Registration.{
  Registered, FormState, clean_phone, is_valid, size, phone_error_of, handle_phone_change,
  handle_submit, after_register, after_data, after_login, fail, finish, store_user, store_login,
  store_login_user, store_token,
}
use go_moda_mayor.Registration.Phone.{phone_error_of-is_valid}

-- One number was sent, and nothing is loading any more.
abbrev IsSent : FormState → FormState → Type 0
IsSent s t = (t.sent ≡ s.sent) × (t.loading ≡ false)

store_login-sent : (d : Registered) (s : FormState) → (store_login d s).sent ≡ s.sent
unfolding store_login store_login_user store_token
store_login-sent d s = of_user d.user
  where
    with_token : (store_token d.token s).sent ≡ s.sent
    with_token =
        if_elim (λ (t : FormState). t.sent ≡ s.sent) (truthy d.token) (record s { token = d.token })
          s (λ e. refl) (λ e. refl)

    of_user :
        (u : Option (Option ℕ × Option ℕ))
        → (store_login_user u (store_token d.token s)).sent ≡ s.sent
    of_user none = with_token
    of_user (some (lower, upper)) = with_token

after_login-IsSent : (r : Reply Registered) (s : FormState) → IsSent s (after_login r s)
unfolding after_login fail finish
after_login-IsSent (failed m) s = (refl, refl)
after_login-IsSent (refused status error) s = (refl, refl)
after_login-IsSent (garbled m) s = (refl, refl)
after_login-IsSent (accepted d) s = (store_login-sent d s, refl)

store_user-sent :
    (u : Option (Option ℕ × Option ℕ)) (s : FormState) → (store_user u s).sent ≡ s.sent
unfolding store_user
store_user-sent none s = refl
store_user-sent (some (lower, upper)) s = refl

after_data-IsSent :
    (d : Registered) (r : Reply Registered) (s : FormState) → IsSent s (after_data d r s)
unfolding after_data finish
after_data-IsSent d r s =
    if_elim (IsSent s) (truthy d.token) (finish (store_user d.user (record s { token = d.token })))
      (after_login r s) (λ e. (store_user-sent d.user (record s { token = d.token }), refl))
      (λ e. after_login-IsSent r s)

after_register-IsSent : (r l : Reply Registered) (s : FormState) → IsSent s (after_register r l s)
unfolding after_register fail
after_register-IsSent (failed m) l s = (refl, refl)
after_register-IsSent (refused status error) l s = (refl, refl)
after_register-IsSent (garbled m) l s = after_data-IsSent (record { token = none; user = none }) l s
after_register-IsSent (accepted d) l s = after_data-IsSent d l s

no_error : (p : String) → is_valid p ≡ true → phone_error_of p ≡ none
no_error p valid = by_error (phone_error_of p) (phone_error_of-is_valid p ∙ (rw valid refl))
  where
    by_error : (o : Option String) → is_some o ≡ false → o ≡ none
    by_error none h = refl
    by_error (some m) h = absurd (cc)

-- Whoever types a phone number and submits a form that is not loading sends it just if, without its
-- marks and a leading 54, it has ten or eleven digits and nothing else, however the server answers;
-- the message under the field is shown just if the number is neither that nor empty; and afterwards
-- the form is not loading.
pub handle_submit-handle_phone_change :
    (register login : Reply Registered) (v : String) (s : FormState)
    → s.loading ≡ false
    → let typed = handle_phone_change v s in
      let t = handle_submit register login typed in
      (t.sent ≡ (if is_valid (clean_phone v) then s.sent + 1 else s.sent))
      × (is_some typed.phone_error ≡ not (is_valid (clean_phone v) || size (clean_phone v) == 0))
      × (t.loading ≡ false)
unfolding handle_submit handle_phone_change
handle_submit-handle_phone_change register login v s idle =
    let p = clean_phone v in
    let typed = record s { phone = v; phone_error = none } in
    elim (Bool-cases (is_valid p)) [
      | inl e ↦
          let (sent, free) =
            after_register-IsSent register login
              (record typed { loading = true; error = none; sent = s.sent + 1 }) in
          rw (e, no_error p e) (sent, refl, free)
      | inr e ↦ rw e (refl, phone_error_of-is_valid p ∙ (rw e refl), idle)
    ]
