-- ===== src/NewProduct/Colors.antt =====
-- The colours that are chosen in front/src/app/admin/productos/nuevo/page.tsx, in its first step and in
-- its second, and the sizes.
pub mod Choice
use go_moda_mayor.Prelude.{
  Bool, true, false, not, List, [], ◌∷◌, ◌++◌, String, if◌then◌else◌, any, keep, str_eq,
}

-- `xs.includes(x)`
abbrev pub has : String → List String → Bool
has x xs = any (λ y. str_eq y x) xs

-- `xs.includes(x) ? xs.filter(y => y !== x) : [...xs, x]`, of a colour in the second step, and a size.
pub toggle : String → List String → List String
toggle x xs = if has x xs then keep (λ y. not (str_eq y x)) xs else xs ++ (x ∷ [])

-- The box "Sin variante de color" of the first step.
pub check_no_color : Bool → List String → List String
check_no_color true xs = "unico" ∷ []
check_no_color false xs = []

-- A colour of the first step, which is disabled while there is none.
pub check_color : String → List String → List String
unfolding toggle
check_color key xs =
    if has "unico" xs then xs else toggle key (keep (λ y. not (str_eq y "unico")) xs)

-- The clicks of the first step.
pub data Click : Type 0 where
  no_color : Bool → Click
  color : String → Click

pub click : Click → List String → List String
click (no_color checked) xs = check_no_color checked xs
click (color key) xs = check_color key xs

pub run_clicks : List Click → List String → List String
run_clicks [] xs = xs
run_clicks (c ∷ cs) xs = run_clicks cs (click c xs)
