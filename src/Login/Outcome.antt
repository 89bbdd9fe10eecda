-- ===== src/Login/Outcome.antt =====
-- What a login with front/src/app/login/page.tsx leaves.
use go_moda_mayor.Prelude.{
  ◌≡◌, refl, Bool, true, false, none, List, [], ◌++◌, map, String, if◌then◌else◌, is_some,
}
use go_moda_mayor.Prelude.Int.{pos, ltb_ℤ}
use go_moda_mayor.Net.{Reply, failed, refused, garbled, accepted}
use go_moda_mayor.GuestCart.{Store, get_guest_cart, get_guest_cart_item_count}
use go_moda_mayor.GuestCart.Migrate.{add_request}
use go_moda_mayor.Auth.Changed.{not_expired}
use go_moda_mayor.Login.{LoginData, Answers, LoginState, handle_login, after_login}

abbrev pub is_accepted : Reply LoginData → Bool
is_accepted (accepted d) = true
is_accepted (failed m) = false
is_accepted (refused status error) = false
is_accepted (garbled m) = false

module _ {F T : Type 0} ⦃st : Store F T⦄ where
  -- Whether the guest's cart is moved.
  abbrev pub has_pieces : LoginState F T → Bool
  has_pieces s = ltb_ℤ (pos 0) (get_guest_cart_item_count s.browser)

module _ {F T : Type 0} ⦃st : Store F T⦄ (answers : Answers) where
  -- What is true after the migration, if it took place, and before the profile is stored.
  record IsMoved (token : String) (s t : LoginState F T) : Type 0 where
    posted :
        t.posted
        ≡ s.posted
          ++ (if has_pieces s then map (add_request token) (get_guest_cart s.browser) else [])
    left : get_guest_cart t.browser ≡ (if has_pieces s then [] else get_guest_cart s.browser)
    mounted : t.auth.mounted ≡ s.auth.mounted
    trusted : not_expired answers.after_migration ≡ true → t.auth.token ≡ s.auth.token
    same_page : (t.pushed ≡ s.pushed) × (t.error ≡ s.error)

  module _ (to_lower_case : String → String) where
    -- A login that is not accepted changes neither the session nor the guest's cart, posts nothing,
    -- sends nobody anywhere, alerts nothing and shows an error.
    pub handle_login-refused :
        (s : LoginState F T)
        → is_accepted answers.login ≡ false
        → let t = handle_login answers to_lower_case s in
          (t.auth ≡ s.auth)
          × (t.browser ≡ s.browser)
          × (t.posted ≡ s.posted)
          × (t.pushed ≡ s.pushed)
          × (t.alerts ≡ s.alerts)
          × (is_some t.error ≡ true)
    unfolding handle_login after_login
    handle_login-refused s = by_reply answers.login
      where
        by_reply :
            (r : Reply LoginData)
            → is_accepted r ≡ false
            → let t =
                after_login answers to_lower_case r (record s { error = none; success = none }) in
              (t.auth ≡ s.auth)
              × (t.browser ≡ s.browser)
              × (t.posted ≡ s.posted)
              × (t.pushed ≡ s.pushed)
              × (t.alerts ≡ s.alerts)
              × (is_some t.error ≡ true)
        by_reply (failed m) h = (refl, refl, refl, refl, refl, refl)
        by_reply (refused status error) h = (refl, refl, refl, refl, refl, refl)
        by_reply (garbled m) h = (refl, refl, refl, refl, refl, refl)
        by_reply (accepted d) h = absurd (cc)
