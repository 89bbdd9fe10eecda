-- ===== src/CartModal/Panel.antt =====
-- How the window of front/src/components/CartModal.tsx opens and closes: the session's history, and
-- the timers of the animations. The focus that is kept and restored is not modelled, nor are
-- the runs of the effect after the first, at a change of the path that the router reports.
pub mod Turns
pub mod Rest
use go_moda_mayor.Prelude.{
  ℕ, ◌+◌, Bool, true, false, not, Option, none, some, List, [], ◌∷◌, ◌++◌, String, leb,
  if◌then◌else◌, keep, str_eq,
}
use go_moda_mayor.Prelude.Sort.{sort_by}

-- What a timer does: the two functions of the code, and the event `popstate`, which the browser
-- sends some time after `history.back()`.
pub data Action : Type 0 where
  show leave popped : Action

pub record Timer : Type 0 where
  pub due : ℕ
  pub action : Action

-- The paths of the session's history up to the present one, which comes first; the time is in
-- milliseconds.
pub record Panel : Type 0 where
  pub is_open : Bool
  pub animate_in : Bool
  pub history : List String
  pub timers : List Timer
  pub now : ℕ

abbrev pub on_cart : List String → Bool
on_cart [] = false
on_cart (path ∷ history) = str_eq path "/carrito"

abbrev pub after : ℕ → Action → Panel → Panel
after delay action p = record p {
  timers = p.timers ++ (record { due = p.now + delay; action = action } ∷ []);
}

-- The effect at the mount.
pub mount : Panel → Panel
mount p =
    let shown = record p { is_open = on_cart p.history } in
    if on_cart p.history then after 10 show shown else shown

pub on_pop : Panel → Panel
on_pop p = record p { is_open = on_cart p.history; animate_in = on_cart p.history }

-- `history.back()`, with an entry of the same page to go back to.
back : List String → Panel → Panel
back [] p = p
back (path ∷ []) p = p
back (path ∷ before ∷ history) p = after 0 popped (record p { history = before ∷ history })

pub open_cart : Panel → Panel
open_cart p = after 10 show (record p {
  history = if on_cart p.history then p.history else "/carrito" ∷ p.history;
  is_open = true;
})

pub close_cart : Panel → Panel
close_cart p = after 300 leave (record p { animate_in = false })

act : Action → Panel → Panel
unfolding back on_pop
act show p = record p { animate_in = true }
act leave p = record (if on_cart p.history then back p.history p else p) { is_open = false }
act popped p = on_pop p

act_all : List Timer → Panel → Panel
unfolding act
act_all [] p = p
act_all (t ∷ ts) p = act_all ts (act t.action p)

abbrev pub sooner : Timer → Timer → Bool
sooner s t = leb s.due t.due

-- Time goes by: the timers that are then due run in their order. What they set off runs next time.
pub elapse : ℕ → Panel → Panel
unfolding act_all
elapse time p =
    let now = p.now + time in
    act_all (sort_by sooner (keep (λ t. leb t.due now) p.timers))
      (record p { timers = keep (λ t. not (leb t.due now)) p.timers; now = now })
