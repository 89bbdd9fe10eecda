-- ===== src/CartModal/Panel/Rest.antt =====
-- The timers of the window of front/src/components/CartModal.tsx run out.
use go_moda_mayor.Prelude.{
  ℕ, ◌+◌, ◌≡◌, refl, ◌∙◌, ◌≤◌, Bool, false, not, List, [], ◌∷◌, arith, leb, keep, All, All-append,
  All-keep, if_elim, String,
}
use go_moda_mayor.Prelude.Sort.{sort_by, All-sort_by, All-mono}
use go_moda_mayor.CartModal.Panel.{
  Panel, Timer, Action, show, leave, popped, elapse, back, act, act_all, on_cart, on_pop, sooner,
}

-- The timer is the event after `history.back()`, and due.
abbrev IsPop : ℕ → Timer → Type 0
IsPop now t = (t.action ≡ popped) × (t.due ≤ now)

abbrev AllPop : Panel → Type 0
AllPop p = All (IsPop p.now) p.timers

back-AllPop : (history : List String) (p : Panel) → AllPop p → AllPop (back history p)
unfolding back
back-AllPop [] p h = h
back-AllPop (path ∷ []) p h = h
back-AllPop (path ∷ before ∷ history) p h =
    All-append (IsPop p.now) p.timers _ h ((refl, omega arith), tt)

act-AllPop : (a : Action) (p : Panel) → AllPop p → AllPop (act a p)
unfolding act on_pop
act-AllPop show p h = h
act-AllPop leave p h =
    if_elim AllPop (on_cart p.history) (back p.history p) p (λ _. back-AllPop p.history p h)
      (λ _. h)
act-AllPop popped p h = h

act_all-AllPop : (ts : List Timer) (p : Panel) → AllPop p → AllPop (act_all ts p)
unfolding act_all
act_all-AllPop [] p h = h
act_all-AllPop (t ∷ ts) p h = act_all-AllPop ts (act t.action p) (act-AllPop t.action p h)

keep_none : (p : Timer → Bool) (ts : List Timer) → All (λ t. p t ≡ false) ts → keep p ts ≡ []
keep_none p [] h = refl
keep_none p (t ∷ ts) (e, h) = rw e (keep_none p ts h)

not_later :
    (now : ℕ) (ts : List Timer)
    → All (λ t. t.due ≤ now) ts
    → keep (λ t. not (leb t.due now)) ts ≡ []
not_later now ts h =
    keep_none (λ t. not (leb t.due now)) ts
      (All-mono (λ t. t.due ≤ now) (λ t. not (leb t.due now) ≡ false) ts (λ t d. ground arith) h)

elapse-AllPop :
    (time : ℕ) (p : Panel) → All (λ t. t.due ≤ p.now + time) p.timers → AllPop (elapse time p)
unfolding elapse
elapse-AllPop time p h = rw (not_later (p.now + time) p.timers h) (
    act_all-AllPop (sort_by sooner (keep (λ t. leb t.due (p.now + time)) p.timers))
      (record p { timers = []; now = p.now + time }) tt)

-- Such events set nothing off.
act_all-popped :
    (ts : List Timer) (p : Panel)
    → All (λ t. t.action ≡ popped) ts
    → (act_all ts p).timers ≡ p.timers
unfolding act_all act on_pop
act_all-popped [] p h = refl
act_all-popped (t ∷ ts) p (e, h) = rw e (act_all-popped ts (on_pop p) h)

-- Whatever timers are set, once all of them are due and the events that they set off have come, none
-- is left: the window sets no timer by itself.
timers_run_out :
    (p : Panel) (time : ℕ)
    → All (λ t. t.due ≤ p.now + time) p.timers
    → (elapse 0 (elapse time p)).timers ≡ []
unfolding elapse
timers_run_out p time h =
    let q = elapse time p in
    let pops = elapse-AllPop time p h in
    let due = λ (t : Timer). leb t.due (q.now + 0) in
    let popped_all =
      All-keep (λ t. t.action ≡ popped) due q.timers
        (All-mono (IsPop q.now) (λ t. t.action ≡ popped) q.timers (λ t e. e.0) pops) in
    act_all-popped (sort_by sooner (keep due q.timers)) _
      ((All-sort_by sooner (λ t. t.action ≡ popped) (keep due q.timers)).1 popped_all)
    ∙ not_later (q.now + 0) q.timers (
        All-mono (IsPop q.now) (λ t. t.due ≤ q.now + 0) q.timers (λ t e. let d = e.1 in omega arith)
          pops)
