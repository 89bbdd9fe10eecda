-- ===== src/NewProduct/Colors/Choice.antt =====
-- Which colours can be chosen in the first step of front/src/app/admin/productos/nuevo/page.tsx.
use text.Mathlib.TextEquality.{eq_iff}
use go_moda_mayor.Prelude.{
  ◌≡◌, refl, Bool, true, false, not, ◌||◌, ◌⊎◌, inl, inr, List, [], ◌∷◌, ◌++◌, String, keep, str_eq,
  Bool-cases, arith, All,
}
use go_moda_mayor.NewProduct.Colors.{
  has, toggle, check_no_color, check_color, Click, no_color, color, click, run_clicks,
}

abbrev Distinct : List String → Type 0
Distinct [] = Unit
Distinct (x ∷ xs) = (has x xs ≡ false) × Distinct xs

-- Either no colour is wanted, or colours are, each once.
abbrev pub IsChoice : List String → Type 0
IsChoice xs = (xs ≡ "unico" ∷ []) ⊎ ((has "unico" xs ≡ false) × Distinct xs)

-- The identifiers of colours are not the mark for none.
abbrev pub IsColor : Click → Type 0
IsColor (no_color checked) = Unit
IsColor (color key) = str_eq key "unico" ≡ false

has-append : (x y : String) (xs : List String) → has x (xs ++ (y ∷ [])) ≡ (has x xs || str_eq y x)
has-append x y [] = ground arith
has-append x y (z ∷ xs) = ground (arith, has-append x y xs)

has-keep :
    (x : String) (p : String → Bool) (xs : List String)
    → has x xs ≡ false
    → has x (keep p xs) ≡ false
has-keep x p [] h = refl
has-keep x p (y ∷ xs) h = ground (arith, has-keep x p xs)

keep-Distinct : (p : String → Bool) (xs : List String) → Distinct xs → Distinct (keep p xs)
keep-Distinct p [] d = tt
keep-Distinct p (x ∷ xs) (h, d) = elim (Bool-cases (p x)) [
  | inl e ↦ rw e (has-keep x p xs h, keep-Distinct p xs d)
  | inr e ↦ rw e (keep-Distinct p xs d)
]

keep_self : (x : String) (xs : List String) → has x (keep (λ y. not (str_eq y x)) xs) ≡ false
keep_self x [] = refl
keep_self x (y ∷ xs) = ground (arith, keep_self x xs)

append-Distinct :
    (x : String) (xs : List String) → has x xs ≡ false → Distinct xs → Distinct (xs ++ (x ∷ []))
append-Distinct x [] h d = (refl, tt)
append-Distinct x (y ∷ xs) h (k, d) = (
  ground (arith, has-append y x xs, eq_iff y x, eq_iff x y),
  append-Distinct x xs (ground arith) d,
)

toggle-IsChoice :
    (key : String) (xs : List String)
    → str_eq key "unico" ≡ false
    → has "unico" xs ≡ false
    → Distinct xs
    → (has "unico" (toggle key xs) ≡ false) × Distinct (toggle key xs)
unfolding toggle
toggle-IsChoice key xs apart h d = elim (Bool-cases (has key xs)) [
  | inl e ↦ rw e (has-keep "unico" (λ y. not (str_eq y key)) xs h, keep-Distinct _ xs d)
  | inr e ↦ rw e (ground (arith, has-append "unico" key xs), append-Distinct key xs e d)
]

click-IsChoice : (c : Click) (xs : List String) → IsColor c → IsChoice xs → IsChoice (click c xs)
unfolding click check_no_color check_color
click-IsChoice (no_color true) xs h k = inl refl
click-IsChoice (no_color false) xs h k = inr (refl, tt)
click-IsChoice (color key) xs h (inl e) = rw e (inl refl)
click-IsChoice (color key) xs h (inr (k, d)) =
    rw k (inr (toggle-IsChoice key _ h (has-keep "unico" _ xs k) (keep-Distinct _ xs d)))

-- However the boxes of the first step are clicked, from none or from a choice of this kind, either the
-- mark for no colour stands alone, or it is not there and every colour is chosen once at most.
pub run_clicks-IsChoice :
    (cs : List Click) (xs : List String)
    → All IsColor cs
    → IsChoice xs
    → IsChoice (run_clicks cs xs)
unfolding run_clicks
run_clicks-IsChoice [] xs hs k = k
run_clicks-IsChoice (c ∷ cs) xs (h, hs) k =
    run_clicks-IsChoice cs (click c xs) hs (click-IsChoice c xs h k)

-- In the second step a colour is added to the mark for none.
pub toggle_no_color :
    (key : String)
    → str_eq key "unico" ≡ false
    → toggle key (check_no_color true []) ≡ "unico" ∷ key ∷ []
unfolding toggle check_no_color
toggle_no_color key h = ground (arith, eq_iff "unico" key, eq_iff key "unico")
