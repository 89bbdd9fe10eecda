-- ===== src/FocusTrap.antt =====
-- front/src/hooks/useFocusTrap.ts: the keyboard's focus stays in an open dialog. The selector query
-- gives a list of elements, and `focus()` is a parameter.
pub mod Places
pub mod Cycle
mod Tests
use go_moda_mayor.Prelude.{
  ℕ, zero, suc, ◌-◌, Bool, true, false, not, ◌||◌, Option, none, some, List, [], ◌∷◌, map, ◌==◌,
  if◌then◌else◌, keep, length, get_or, or_else,
}

-- An element that the selectors match: its identity and what the page says of its layout.
pub record Element : Type 0 where
  pub identity : ℕ
  pub offset_width : ℕ
  pub offset_height : ℕ
  pub client_rects : ℕ

abbrev is_visible : Element → Bool
is_visible e = not (e.offset_width == 0) || not (e.offset_height == 0) || not (e.client_rects == 0)

pub get_focusable : List Element → List ℕ
get_focusable matching = map (λ e. e.identity) (keep is_visible matching)

-- `list[i]`
abbrev pub nth : ℕ → List ℕ → Option ℕ
nth i [] = none
nth zero (x ∷ xs) = some x
nth (suc i) (x ∷ xs) = nth i xs

abbrev after_one : Option ℕ → Option ℕ
after_one none = none
after_one (some i) = some (suc i)

-- `list.indexOf(x)`, where `none` is -1.
abbrev pub index_of : ℕ → List ℕ → Option ℕ
index_of x [] = none
index_of x (y ∷ ys) = if x == y then some 0 else after_one (index_of x ys)

abbrev pub is_index : Option ℕ → ℕ → Bool
is_index none n = false
is_index (some i) n = i == n

pub data Key : Type 0 where
  tab shift_tab other : Key

-- What the listener makes of a key: nothing, `preventDefault()` alone, or that and a focus.
pub data Verdict : Type 0 where
  left_alone prevented : Verdict
  moves : ℕ → Verdict

-- `list[i].focus()`
move_to : Option ℕ → Verdict
move_to none = prevented
move_to (some x) = moves x

wrap : Bool → Option ℕ → Verdict
unfolding move_to
wrap at_end target = if at_end then move_to target else left_alone

-- The listener, with the container, the focusable elements and the active element.
pub on_key : Key → ℕ → List ℕ → ℕ → Verdict
unfolding wrap
on_key other container list active = left_alone
on_key tab container [] active = prevented
on_key tab container (x ∷ xs) active =
    wrap (is_index (index_of active (x ∷ xs)) (length (x ∷ xs) - 1)) (nth 0 (x ∷ xs))
on_key shift_tab container [] active = prevented
on_key shift_tab container (x ∷ xs) active =
    wrap (is_index (index_of active (x ∷ xs)) 0 || active == container)
      (nth (length (x ∷ xs) - 1) (x ∷ xs))

-- The active element of the page, and whether the listener is there.
pub record Trap : Type 0 where
  pub active : ℕ
  pub listening : Bool
  pub previous : Option ℕ

-- `focus x a` is the active element after `x.focus()` where `a` was active, and `default k a` the
-- one after the browser's own action for the key `k`.
module _ (focus : ℕ → ℕ → ℕ) (default : Key → ℕ → ℕ) where
  carry_out : Verdict → Key → ℕ → ℕ
  carry_out left_alone key active = default key active
  carry_out prevented key active = active
  carry_out (moves x) key active = focus x active

  pub press : ℕ → List ℕ → Key → Trap → Trap
  unfolding carry_out
  press container list key t =
      if t.listening
      then record t { active = carry_out (on_key key container list t.active) key t.active }
      else record t { active = default key t.active }

  -- The effect: `focusable[0] ?? container` gets the focus.
  pub open_trap : ℕ → List ℕ → Trap → Trap
  open_trap container list t = record t {
    active = focus (get_or (nth 0 list) container) t.active;
    listening = true;
    previous = some t.active;
  }

  give_back : Option ℕ → ℕ → ℕ
  give_back none active = active
  give_back (some x) active = focus x active

  -- The cleanup: `returnFocusRef?.current ?? prevActive`.
  pub close_trap : Option ℕ → Trap → Trap
  unfolding give_back
  close_trap return_to t = record t {
    active = give_back (or_else return_to t.previous) t.active;
    listening = false;
  }

  pub press_all : ℕ → List ℕ → List Key → Trap → Trap
  press_all container list [] t = t
  press_all container list (k ∷ ks) t = press_all container list ks (press container list k t)
