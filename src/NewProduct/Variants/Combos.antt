-- ===== src/NewProduct/Variants/Combos.antt =====
-- The combinations of a colour and a size in front/src/app/admin/productos/nuevo/page.tsx, which are
-- kept as texts and read back.
use Prim.Native.Char.{Char}
use Prim.Native.String
use text.Mathlib.TextLemmas.{nil-append, cons-append, append_assoc, append-nil}
use go_moda_mayor.Prelude.{◌≡◌, refl, sym, ap, ◌∙◌, some, List, ◌∷◌, String}
use go_moda_mayor.Prelude.Split.{split, Avoids, split-append, split-one}
use go_moda_mayor.NewProduct.Variants.{Color, combo_of, variant_of, key_of, size_of}

abbrev dash : Char
dash = "-"

combo_of_lem : (key size : String) → combo_of key size ≡ String.◌++◌ key (String.◌∷◌ dash size)
combo_of_lem key size =
    ap (λ (t : String). String.◌++◌ key t)
      (cons-append dash "" (String.◌++◌ size "")
        ∙ ap (λ (t : String). String.◌∷◌ dash t) (nil-append _ ∙ append-nil size))

-- The parts of a combination.
split-combo_of :
    (key size : String) → Avoids dash key → split dash (combo_of key size) ≡ key ∷ split dash size
split-combo_of key size h = rw (combo_of_lem key size) (split-append dash key size h)

regroup : (a b size : String) → combo_of (combo_of a b) size ≡ combo_of a (combo_of b size)
regroup a b size =
    combo_of_lem (combo_of a b) size
    ∙ ap (λ (t : String). String.◌++◌ t (String.◌∷◌ dash size)) (combo_of_lem a b)
    ∙ append_assoc a (String.◌∷◌ dash b) (String.◌∷◌ dash size)
    ∙ ap (λ (t : String). String.◌++◌ a t)
        (cons-append dash b (String.◌∷◌ dash size)
          ∙ ap (λ (t : String). String.◌∷◌ dash t) (sym (combo_of_lem b size)))
    ∙ sym (combo_of_lem a (combo_of b size))

module _ (to_upper_case : String → String) (colors : List Color) (prefix : String) where
  -- A key and a size without hyphens are those of the variant of their combination.
  pub variant_of-combo_of :
      (key size : String)
      → Avoids dash key
      → Avoids dash size
      → let v = variant_of to_upper_case colors prefix (combo_of key size) in
        (v.color_key ≡ key) × (v.size ≡ some size)
  unfolding variant_of key_of size_of
  variant_of-combo_of key size h k =
      rw (split-combo_of key size h, split-one dash size k) (refl, refl)

  -- Of a key that has one hyphen, the variant has the part before it as its colour and the part behind
  -- it as its size, whatever the size.
  pub variant_of-hyphen :
      (a b size : String)
      → Avoids dash a
      → Avoids dash b
      → let v = variant_of to_upper_case colors prefix (combo_of (combo_of a b) size) in
        (v.color_key ≡ a) × (v.size ≡ some b)
  unfolding variant_of key_of size_of
  variant_of-hyphen a b size h k =
      let e : combo_of (combo_of a b) size ≡ combo_of a (combo_of b size) = regroup a b size in
      rw (e, split-combo_of a (combo_of b size) h, split-combo_of b size k) (refl, refl)
