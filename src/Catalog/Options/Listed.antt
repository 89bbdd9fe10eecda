-- ===== src/Catalog/Options/Listed.antt =====
-- Which options front/src/app/productos/ProductosClient.tsx lists.
use text.Mathlib.TextEquality.{eq_iff}
use go_moda_mayor.Prelude.{
  ℕ, ◌+◌, ◌≡◌, refl, ap, ◌∙◌, Bool, true, false, ◌&&◌, ◌||◌, Option, none, some, List, [], ◌∷◌,
  String, arith, ◌==◌, if◌then◌else◌, any, str_eq, truthy,
}
use go_moda_mayor.Catalog.{CatalogVariant, CatalogProduct, text_of, variants_of}
use go_moda_mayor.Catalog.Options.{add_option, add_options, collect, available}
use go_moda_mayor.Catalog.Options.Counts.{offers, offered}

-- How often an option is listed.
abbrev pub times : String → List String → ℕ
times k [] = 0
times k (s ∷ ss) = (if str_eq s k then 1 else 0) + times k ss

times-add_option :
    (k t : String) (found : List String)
    → times k (add_option t found) ≡ (if str_eq t k && times k found == 0 then 1 else times k found)
unfolding add_option
times-add_option k t [] = ground arith
times-add_option k t (s ∷ ss) =
    ground (arith, eq_iff s t, eq_iff s k, eq_iff t k, times-add_option k t ss)

-- Listed once more, if it is new and stands in what is looked through.
abbrev listed : Bool → ℕ → ℕ
listed b n = if b && n == 0 then 1 else n

listed-listed : (a b : Bool) (n : ℕ) → listed b (listed a n) ≡ listed (a || b) n
listed-listed true b n = ground arith
listed-listed false b n = refl

module _ (pick : CatalogVariant → Option String) (k : String) (full : truthy (some k) ≡ true) where
  times_picked :
      (found : List String) (o : Option String)
      → times k (if truthy o then add_option (text_of o) found else found)
        ≡ listed (str_eq (text_of o) k) (times k found)
  times_picked found none = ground (arith, eq_iff "" k, eq_iff k "")
  times_picked found (some j) =
      ground (arith, eq_iff j "", eq_iff j k, eq_iff k "", times-add_option k j found)

  times-add_options :
      (found : List String) (vs : List CatalogVariant)
      → times k (add_options pick found vs) ≡ listed (offers pick k vs) (times k found)
  unfolding add_options
  times-add_options found [] = refl
  times-add_options found (v ∷ vs) =
      let found' = if truthy (pick v) then add_option (text_of (pick v)) found else found in
      times-add_options found' vs
      ∙ ap (listed (offers pick k vs)) (times_picked found (pick v))
      ∙ listed-listed (str_eq (text_of (pick v)) k) (offers pick k vs) (times k found)

  times-collect :
      {F : Type 0} (found : List String) (ps : List (CatalogProduct F))
      → times k (collect pick found ps) ≡ listed (any (offered pick k) ps) (times k found)
  unfolding collect
  times-collect found [] = refl
  times-collect found (p ∷ ps) =
      times-collect (add_options pick found (variants_of p)) ps
      ∙ ap (listed (any (offered pick k) ps)) (times-add_options found (variants_of p))
      ∙ listed-listed (offered pick k p) (any (offered pick k) ps) (times k found)

  -- A text that is not empty is listed once if some variant of some product has it, and else not at
  -- all.
  pub times-available :
      {F : Type 0} (ps : List (CatalogProduct F))
      → times k (available pick ps) ≡ (if any (offered pick k) ps then 1 else 0)
  unfolding available
  times-available ps = times-collect [] ps ∙ at_first (any (offered pick k) ps)
    where
      at_first : (b : Bool) → listed b 0 ≡ (if b then 1 else 0)
      at_first true = refl
      at_first false = refl
