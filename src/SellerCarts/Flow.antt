-- ===== src/SellerCarts/Flow.antt =====
-- The buttons of a cart's status in front/src/app/vendedora/carritos/page.tsx.
use go_moda_mayor.Prelude.{
  any, ℕ, ◌≡◌, refl, Bool, true, false, ◌&&◌, ◌||◌, ◌⊎◌, inl, Option, none, some, List, [], ◌∷◌,
  String, ltb, ◌==◌, if◌then◌else◌, str_eq, Within,
}

-- A click on a button changes the status, or ends the sale.
pub data Button : Type 0 where
  to : String → Button
  finish : Button

-- The buttons that are there, each with its condition.
offered : List (Bool × Button) → List Button
offered [] = []
offered ((b, x) ∷ rest) = if b then x ∷ offered rest else offered rest

abbrev pub is_estado : String → Option String → Bool
is_estado e none = false
is_estado e (some s) = str_eq s e

-- The buttons of an open cart and their conditions, with the numbers of its pending and its confirmed
-- items.
choices : ℕ → ℕ → Option String → List (Bool × Button)
choices pending confirmed estado =
    (
      is_estado "esperando_vendedora" estado && pending == 0 && ltb 0 confirmed,
      to "listo_para_pago",
    )
    ∷ (is_estado "listo_para_pago" estado, to "pagado")
    ∷ (is_estado "pagado" estado, to "enviado")
    ∷ (is_estado "enviado" estado, finish)
    ∷ (is_estado "listo_para_pago" estado, to "esperando_vendedora")
    ∷ (is_estado "pagado" estado || is_estado "enviado" estado, to "listo_para_pago")
    ∷ []

-- The buttons that a seller sees.
pub buttons : ℕ → ℕ → Option String → List Button
unfolding offered choices
buttons pending confirmed estado = offered (choices pending confirmed estado)

-- A click: the numbers of pending and of confirmed items then, and the status that it leads to.
abbrev pub Click : Type 0
Click = ℕ × ℕ × String

-- The clicks on a cart from `esperando_vendedora`, the last one first, and the status that it has then;
-- the items may be others at every click. A sale that is ended has no buttons any more.
pub data Trail : List Click → String → Type 0 where
  opened : Trail [] "esperando_vendedora"
  clicked :
      (log : List Click) (f g : String) (pending confirmed : ℕ)
      → Trail log f
      → Within (to g) (buttons pending confirmed (some f))
      → Trail ((pending, confirmed, g) ∷ log) g

-- Nothing is pending, and something is confirmed.
abbrev pub is_ready : Click → Bool
is_ready (pending, confirmed, g) = pending == 0 && ltb 0 confirmed && str_eq g "listo_para_pago"

-- The last click was on "listo para pago", and one on it came when the items were ready; the last but
-- one was such, and the last on "pagado"; and one more on "enviado".
abbrev pub IsReady : List Click → Type 0
IsReady [] = ⊥
IsReady ((p, c, g) ∷ log) = (g ≡ "listo_para_pago") × (any is_ready ((p, c, g) ∷ log) ≡ true)

abbrev pub IsPaid : List Click → Type 0
IsPaid [] = ⊥
IsPaid ((p, c, g) ∷ log) = (g ≡ "pagado") × IsReady log

abbrev pub IsSent : List Click → Type 0
IsSent [] = ⊥
IsSent ((p, c, g) ∷ log) = (g ≡ "enviado") × IsPaid log

-- From which status a button leads where.
abbrev Leads : ℕ → ℕ → String → Button → Type 0
Leads p c f finish = f ≡ "enviado"
Leads p c f (to g) =
    ((g ≡ "listo_para_pago") × ((p == 0 && ltb 0 c) ≡ true))
    ⊎ ((g ≡ "pagado") × (f ≡ "listo_para_pago"))
    ⊎ ((g ≡ "enviado") × (f ≡ "pagado"))
    ⊎ (g ≡ "esperando_vendedora")
    ⊎ ((g ≡ "listo_para_pago") × ((f ≡ "pagado") ⊎ (f ≡ "enviado")))

-- What the status tells of the clicks.
abbrev Told : List Click → String → Type 0
Told log f =
    (f ≡ "listo_para_pago" → IsReady log)
    × (f ≡ "pagado" → IsPaid log)
    × (f ≡ "enviado" → IsSent log)

-- The shortest way to that button.
pub shortest :
    Trail ((0, 0, "enviado") ∷ (0, 0, "pagado") ∷ (0, 1, "listo_para_pago") ∷ []) "enviado"
    × Within finish (buttons 0 0 (some "enviado"))
unfolding buttons offered choices
shortest = (
  clicked ((0, 0, "pagado") ∷ (0, 1, "listo_para_pago") ∷ []) "pagado" "enviado" 0 0
      (clicked ((0, 1, "listo_para_pago") ∷ []) "listo_para_pago" "pagado" 0 0
        (clicked [] "esperando_vendedora" "listo_para_pago" 0 1 opened (inl refl)) (inl refl))
      (inl refl),
  inl refl,
)
