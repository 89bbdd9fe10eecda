-- ===== src/FocusTrap/Cycle.antt =====
-- The focus goes around in the dialog of front/src/hooks/useFocusTrap.ts and does not leave it.
use mathlib.Core.Path.{subst}
use go_moda_mayor.Prelude.{
  ℕ, zero, suc, ◌<◌, ◌≡◌, ◌≢◌, refl, sym, ap, true, some, List, [], ◌∷◌, ◌==◌, if◌then◌else◌,
  length, Within, Bool-cases, inl, inr, arith,
}
use go_moda_mayor.FocusTrap.{
  Key, tab, shift_tab, other, Trap, nth, index_of, is_index, move_to, wrap, on_key, carry_out,
  press, press_all, open_trap,
}
use go_moda_mayor.FocusTrap.Places.{
  nth-Within, nth-defined, IsIndex, pred-suc, ne_test, suc_below, suc-==-zero, apart_of, or-true,
  Within-IsIndex,
}

-- A browser and the elements of the dialog: `focus()` on an element of the list makes it active;
-- Tab goes from an element of the list to the next, Shift-Tab to the one before, where there is one;
-- and no other key moves the focus.
pub record IsBrowser (focus : ℕ → ℕ → ℕ) (default : Key → ℕ → ℕ) (list : List ℕ) : Type 0 where
  pub focuses : (x a : ℕ) → Within x list → focus x a ≡ x
  pub forward :
      (i a : ℕ)
      → index_of a list ≡ some i
      → suc i < length list
      → nth (suc i) list ≡ some (default tab a)
  pub backward :
      (i a : ℕ) → index_of a list ≡ some (suc i) → nth i list ≡ some (default shift_tab a)
  pub other_keys : (a : ℕ) → default other a ≡ a

-- The place after `i`, and the one before, in a list of `suc m` elements that closes to a ring.
abbrev pub next : ℕ → ℕ → ℕ
next m i = if i == m then 0 else suc i

abbrev pub previous : ℕ → ℕ → ℕ
previous m zero = m
previous m (suc i) = i

module _ (focus : ℕ → ℕ → ℕ) (default : Key → ℕ → ℕ) (x : ℕ) (xs : List ℕ) where
  moved :
      IsBrowser focus default (x ∷ xs)
      → (i : ℕ) (k : Key) (a : ℕ) → i < length (x ∷ xs)
      → nth i (x ∷ xs) ≡ some (carry_out focus default (move_to (nth i (x ∷ xs))) k a)
  unfolding carry_out move_to
  moved browser i k a below =
      let (y, found) = nth-defined i (x ∷ xs) below in
      rw found (ap some (sym (browser.focuses y a (nth-Within i y (x ∷ xs) found))))

  tab_lem :
      IsBrowser focus default (x ∷ xs)
      → (container i a : ℕ) → index_of a (x ∷ xs) ≡ some i
      → i < length (x ∷ xs)
      → nth (next (length xs) i) (x ∷ xs)
        ≡ some (carry_out focus default (on_key tab container (x ∷ xs) a) tab a)
  unfolding on_key wrap carry_out
  tab_lem browser container i a found below = elim (Bool-cases (i == length xs)) [
    | inl e ↦ rw (pred-suc (length xs)) (rw found (rw e (moved browser 0 tab a (omega arith))))
    | inr e ↦
        rw (pred-suc (length xs))
          (rw found (rw e (browser.forward i a found (suc_below i (length xs) e below))))
  ]

  shift_tab_lem :
      IsBrowser focus default (x ∷ xs)
      → (container i a : ℕ) → index_of a (x ∷ xs) ≡ some i
      → i < length (x ∷ xs)
      → a ≢ container
      → nth (previous (length xs) i) (x ∷ xs)
        ≡ some (carry_out focus default (on_key shift_tab container (x ∷ xs) a) shift_tab a)
  unfolding on_key wrap carry_out
  shift_tab_lem browser container zero a found below apart =
      rw (pred-suc (length xs)) (rw found (moved browser (length xs) shift_tab a (omega arith)))
  shift_tab_lem browser container (suc i) a found below apart =
      rw found (rw (ne_test a container apart) (rw (suc-==-zero i) (browser.backward i a found)))

  -- In an open dialog of such a browser, with the active element at some place of the list and
  -- apart from the container, Tab makes the element at the next place active and Shift-Tab the one at
  -- the place before, where the last and the first place are neighbours.
  pub press-cycle :
      IsBrowser focus default (x ∷ xs)
      → (container i : ℕ) (t : Trap) → index_of t.active (x ∷ xs) ≡ some i
      → i < length (x ∷ xs)
      → t.active ≢ container
      → t.listening ≡ true
      → (nth (next (length xs) i) (x ∷ xs)
          ≡ some (press focus default container (x ∷ xs) tab t).active)
        × (nth (previous (length xs) i) (x ∷ xs)
            ≡ some (press focus default container (x ∷ xs) shift_tab t).active)
  unfolding press
  press-cycle browser container i t found below apart live = rw live (
    tab_lem browser container i t.active found below,
    shift_tab_lem browser container i t.active found below apart,
  )

  stays :
      IsBrowser focus default (x ∷ xs)
      → (container a : ℕ) → Within a (x ∷ xs)
      → Within (carry_out focus default (on_key other container (x ∷ xs) a) other a) (x ∷ xs)
  unfolding on_key carry_out
  stays browser container a inside =
      subst (λ y. Within y (x ∷ xs)) (sym (browser.other_keys a)) inside

  from_container :
      (container a : ℕ)
      → (a == container) ≡ true
      → carry_out focus default (on_key shift_tab container (x ∷ xs) a) shift_tab a
        ≡ carry_out focus default (move_to (nth (length xs) (x ∷ xs))) shift_tab a
  unfolding on_key wrap
  from_container container a e =
      rw (pred-suc (length xs)) (rw e (rw (or-true (is_index (index_of a (x ∷ xs)) 0)) refl))

  press-live :
      (container : ℕ) (k : Key) (t : Trap)
      → t.listening ≡ true
      → press focus default container (x ∷ xs) k t ≡ record t {
        active = carry_out focus default (on_key k container (x ∷ xs) t.active) k t.active;
      }
  unfolding press
  press-live container k t live = simp live refl

  -- At whatever place, Shift-Tab stays in the list, from the container too.
  shift_tab-Within :
      IsBrowser focus default (x ∷ xs)
      → (container a : ℕ) → IsIndex a (x ∷ xs)
      → Within
          (carry_out focus default (on_key shift_tab container (x ∷ xs) a) shift_tab a)
          (x ∷ xs)
  unfolding on_key wrap
  shift_tab-Within browser container a (i, found, below) = elim (Bool-cases (a == container)) [
    | inr e ↦
        nth-Within (previous (length xs) i) _ (x ∷ xs)
          (shift_tab_lem browser container i a found below (apart_of a container e))
    | inl e ↦
        subst (λ y. Within y (x ∷ xs)) (sym (from_container container a e))
          (nth-Within (length xs) _ (x ∷ xs) (moved browser (length xs) shift_tab a (omega arith)))
  ]

  carried-Within :
      IsBrowser focus default (x ∷ xs)
      → (container : ℕ) (k : Key) (a : ℕ) → Within a (x ∷ xs)
      → Within (carry_out focus default (on_key k container (x ∷ xs) a) k a) (x ∷ xs)
  carried-Within browser container tab a inside =
      let (i, found, below) = Within-IsIndex a (x ∷ xs) inside in
      nth-Within (next (length xs) i) _ (x ∷ xs) (tab_lem browser container i a found below)
  carried-Within browser container shift_tab a inside =
      shift_tab-Within browser container a (Within-IsIndex a (x ∷ xs) inside)
  carried-Within browser container other a inside = stays browser container a inside

  press_all-Within :
      IsBrowser focus default (x ∷ xs)
      → (container : ℕ) (ks : List Key) (t : Trap) → Within t.active (x ∷ xs)
      → t.listening ≡ true
      → Within (press_all focus default container (x ∷ xs) ks t).active (x ∷ xs)
  unfolding press press_all
  press_all-Within browser container [] t inside live = inside
  press_all-Within browser container (k ∷ ks) t inside live =
      let after : Trap = record t {
        active = carry_out focus default (on_key k container (x ∷ xs) t.active) k t.active;
      } in
      subst (λ u. Within (press_all focus default container (x ∷ xs) ks u).active (x ∷ xs))
        (sym (press-live container k t live))
        (press_all-Within browser container ks after
          (carried-Within browser container k t.active inside) live)

  -- In a browser whose Tab keys follow the list of elements, a dialog that has a focusable element takes the focus when it opens, and
  -- keeps it inside, whatever keys are pressed and whichever element is the container.
  pub press_all-open_trap-Within :
      IsBrowser focus default (x ∷ xs)
      → (container : ℕ) (ks : List Key) (t : Trap)
      → Within
          (press_all focus default container
            (x ∷ xs)
            ks
            (open_trap focus default container (x ∷ xs) t)).active
          (x ∷ xs)
  unfolding open_trap
  press_all-open_trap-Within browser container ks t =
      press_all-Within browser container ks
        (record t { active = focus x t.active; listening = true; previous = some t.active })
        (inl (browser.focuses x t.active (inl refl))) refl
