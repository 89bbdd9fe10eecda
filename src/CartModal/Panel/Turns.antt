-- ===== src/CartModal/Panel/Turns.antt =====
-- What a visitor sees who opens and closes the window of front/src/components/CartModal.tsx.
use go_moda_mayor.Prelude.{
  ℕ, ◌+◌, ◌≡◌, refl, ◌≤◌, ◌<◌, Bool, true, false, List, [], ◌∷◌, String, arith, leb, str_eq, ◌∙◌,
  Bool-cases, inl, inr,
}
use go_moda_mayor.Prelude.Sort.{sort_by, insert_by}
use go_moda_mayor.CartModal.Panel.{
  Panel, Timer, show, leave, popped, open_cart, close_cart, elapse, back, act, act_all, on_pop,
}

-- One timer, which is due or not.
elapse_due :
    (t : Timer) (time : ℕ) (p : Panel)
    → p.timers ≡ t ∷ []
    → t.due ≤ p.now + time
    → elapse time p ≡ act t.action (record p { timers = []; now = p.now + time })
unfolding elapse act_all sort_by insert_by
elapse_due t time p one h =
    let due : leb t.due (p.now + time) ≡ true = ground arith in rw (one, due) refl

elapse_early :
    (t : Timer) (time : ℕ) (p : Panel)
    → p.timers ≡ t ∷ []
    → p.now + time < t.due
    → elapse time p ≡ record p { timers = t ∷ []; now = p.now + time }
unfolding elapse act_all sort_by
elapse_early t time p one h =
    let due : leb t.due (p.now + time) ≡ false = ground arith in rw (one, due) refl

-- The window at rest.
abbrev pub at_rest : Bool → List String → ℕ → Panel
at_rest shown history now = record {
  is_open = shown;
  animate_in = shown;
  history = history;
  timers = [];
  now = now;
}

opened :
    (path : String) (before : List String) (now time : ℕ)
    → str_eq path "/carrito" ≡ false
    → 10 ≤ time
    → elapse time (open_cart (at_rest false (path ∷ before) now))
      ≡ at_rest true ("/carrito" ∷ path ∷ before) (now + time)
unfolding open_cart act
opened path before now time off h =
    elapse_due (record { due = now + 10; action = show }) time
      (open_cart (at_rest false (path ∷ before) now)) refl (omega arith)
    ∙ (rw off refl)

closed :
    (path : String) (before : List String) (now time : ℕ)
    → 300 ≤ time
    → elapse time (close_cart (at_rest true ("/carrito" ∷ path ∷ before) now))
      ≡ record (at_rest false (path ∷ before) (now + time)) {
        timers = record { due = now + time + 0; action = popped } ∷ [];
      }
unfolding close_cart act back
closed path before now time h =
    elapse_due (record { due = now + 300; action = leave }) time
      (close_cart (at_rest true ("/carrito" ∷ path ∷ before) now)) refl (omega arith)

went_back :
    (path : String) (before : List String) (now time : ℕ)
    → str_eq path "/carrito" ≡ false
    → elapse time (record (at_rest false (path ∷ before) now) {
      timers = record { due = now + 0; action = popped } ∷ [];
    })
      ≡ at_rest false (path ∷ before) (now + time)
unfolding act on_pop
went_back path before now time off =
    elapse_due (record { due = now + 0; action = popped }) time _ refl (omega arith) ∙ (rw off refl)

-- From any page but the cart's, a visitor who opens the window, waits for its 10 ms, closes it and
-- waits for its 300 ms sees it open in between, and afterwards is on the same page with the same
-- history and the window closed.
pub open_cart-close_cart :
    (path : String) (before : List String) (now stay leaving late : ℕ)
    → str_eq path "/carrito" ≡ false
    → 10 ≤ stay
    → 300 ≤ leaving
    → let seen = elapse stay (open_cart (at_rest false (path ∷ before) now)) in
      (seen ≡ at_rest true ("/carrito" ∷ path ∷ before) (now + stay))
      × (elapse late (elapse leaving (close_cart seen))
          ≡ at_rest false (path ∷ before) (now + stay + leaving + late))
open_cart-close_cart path before now stay leaving late off h k = (
  opened path before now stay off h,
  rw (opened path before now stay off h, closed path before (now + stay) leaving k)
      (went_back path before (now + stay + leaving) late off),
)

-- Two timers that are both due, the first of them the one that closes.
both_due :
    (a b : ℕ) (p : Panel)
    → p.timers ≡ record { due = a; action = leave } ∷ record { due = b; action = show } ∷ []
    → a ≤ p.now + 300
    → b ≤ p.now + 300
    → (elapse 300 p).is_open ≡ false
unfolding elapse act_all sort_by insert_by act
both_due a b p two f g =
    let first_due : leb a (p.now + 300) ≡ true = ground arith in
    let then_due : leb b (p.now + 300) ≡ true = ground arith in
    elim (Bool-cases (leb a b)) [
      | inl e ↦ rw (two, first_due, then_due, e) refl
      | inr e ↦ rw (two, first_due, then_due, e) refl
    ]

-- A visitor who opens the window again before the 300 ms of its closing are over finds it closed
-- 300 ms later.
pub reopened_shut :
    (p : Panel) (time : ℕ)
    → p.timers ≡ []
    → time < 300
    → (elapse 300 (open_cart (elapse time (close_cart p)))).is_open ≡ false
unfolding open_cart close_cart
reopened_shut p time none h =
    let leaves : Timer = record { due = p.now + 300; action = leave } in
    let alone : (close_cart p).timers ≡ leaves ∷ [] = rw none refl in
    rw (elapse_early leaves time (close_cart p) alone (omega arith))
      (both_due (p.now + 300) (p.now + time + 10) _ refl (omega arith) (omega arith))
