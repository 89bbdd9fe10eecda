-- ===== src/FocusTrap/Tests.antt =====
-- The theorems on front/src/hooks/useFocusTrap.ts in a dialog of two elements.
use go_moda_mayor.Prelude.{
  ℕ, zero, suc, ◌<◌, ◌≡◌, refl, true, none, some, List, [], ◌∷◌, ◌==◌, if◌then◌else◌, Within, arith,
}
use go_moda_mayor.FocusTrap.{
  Key, tab, shift_tab, other, Trap, nth, index_of, press_all, open_trap, Element, get_focusable,
}
use go_moda_mayor.FocusTrap.Cycle.{IsBrowser, press_all-open_trap-Within}

abbrev default_action : Key → ℕ → ℕ
default_action tab a = if a == 4 then 6 else 1
default_action shift_tab a = if a == 6 then 4 else 1
default_action other a = a

abbrev set_focus : ℕ → ℕ → ℕ
set_focus x a = x

abbrev matching : List Element
matching =
    record { identity = 4; offset_width = 10; offset_height = 10; client_rects = 1 }
    ∷ record { identity = 5; offset_width = 0; offset_height = 0; client_rects = 0 }
    ∷ record { identity = 6; offset_width = 10; offset_height = 10; client_rects = 1 }
    ∷ []

two_shown : get_focusable matching ≡ 4 ∷ 6 ∷ []
unfolding get_focusable
two_shown = refl

forward_two :
    (i a : ℕ)
    → index_of a (4 ∷ 6 ∷ []) ≡ some i
    → suc i < 2
    → nth (suc i) (4 ∷ 6 ∷ []) ≡ some (default_action tab a)
forward_two zero a found below = grind arith
forward_two (suc i) a found below = grind arith

backward_two :
    (i a : ℕ)
    → index_of a (4 ∷ 6 ∷ []) ≡ some (suc i)
    → nth i (4 ∷ 6 ∷ []) ≡ some (default_action shift_tab a)
backward_two zero a found = grind arith
backward_two (suc i) a found = grind arith

two_elements : IsBrowser set_focus default_action (4 ∷ 6 ∷ [])
two_elements = record {
  focuses = λ x a inside. refl;
  forward = forward_two;
  backward = backward_two;
  other_keys = λ a. refl;
}

abbrev before : Trap
before = record { active = 2; listening = true; previous = none }

press_all-open_trap-Within_example :
    Within
      (press_all set_focus default_action 3
        (4 ∷ 6 ∷ [])
        (tab ∷ tab ∷ shift_tab ∷ [])
        (open_trap set_focus default_action 3 (4 ∷ 6 ∷ []) before)).active
      (4 ∷ 6 ∷ [])
press_all-open_trap-Within_example =
    press_all-open_trap-Within set_focus default_action 4 (6 ∷ []) two_elements 3
      (tab ∷ tab ∷ shift_tab ∷ []) before

abbrev inside : Trap
inside = record { active = 6; listening = true; previous = some 2 }
