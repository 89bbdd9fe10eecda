-- ===== src/Catalog/Url/Roundtrip.antt =====
-- What is read back from the URL after front/src/app/productos/ProductosClient.tsx changed it.
use Prim.Native.Char.{Char}
use text.Mathlib.TextEquality.{eq_iff}
use text.Mathlib.TextLemmas.{cons-append}
use text.Mathlib.TextPositions.{eq_refl}
use go_moda_mayor.Prelude.{
  ℕ, ◌≡◌, refl, Bool, true, false, not, Option, none, some, arith, List, [], ◌∷◌, ◌++◌, String,
  if◌then◌else◌, keep, str_eq, truthy, All, All-keep, All-append, Bool-cases, inl, inr,
}
use go_moda_mayor.Prelude.Split.{join, Avoids, AllAvoid, split-join, AllAvoid-split}
use go_moda_mayor.Catalog.Url.{
  Params, IsParams, texts, update_param, update_url_params, read_url, open_url, follow_url, same_id,
  check_color, list_param, param,
}

abbrev pub IsFull : String → Type 0
IsFull t = truthy (some t) ≡ true

not_empty : (c : Char) (s : String) → IsFull (String.◌∷◌ c s)
not_empty c s = elim (Bool-cases (str_eq (String.◌∷◌ c s) "")) [
  | inl e ↦ let same : String.◌∷◌ c s ≡ "" = (eq_iff (String.◌∷◌ c s) "").0 e in cc
  | inr e ↦ rw e refl
]

join-IsFull : (t : String) (ts : List String) → IsFull t → IsFull (join "," (t ∷ ts))
unfolding join
join-IsFull t [] full = full
join-IsFull String.[] (v ∷ ts) full = cc
join-IsFull (String.◌∷◌ c t) (v ∷ ts) full =
    rw (cons-append c t (String.◌∷◌ "," (join "," (v ∷ ts)))) (not_empty c _)

same_id_refl : (o : Option ℕ) → same_id o o ≡ true
same_id_refl none = refl
same_id_refl (some n) = ground arith

-- A list of texts without commas, none of them empty, is read back.
module _ {P : Type 0} ⦃r : Params P⦄ (laws : IsParams P r) where
  list_param-update :
      (key : String) (ts : List String) (p : P)
      → All IsFull ts
      → AllAvoid "," ts
      → list_param key (update_param key (texts ts) p) ≡ ts
  unfolding update_param
  list_param-update key [] p full apart = rw (laws.get-delete key key p, eq_refl key) refl
  list_param-update key (t ∷ ts) p full apart =
      let all = join "," (t ∷ ts) in
      rw (laws.get-set key key all p, eq_refl key, join-IsFull t ts full.0)
        (split-join "," t ts apart)

  other_param-update :
      (key other : String) (ts : List String) (p : P)
      → str_eq key other ≡ false
      → r.get other (update_param key (texts ts) p) ≡ r.get other p
  unfolding update_param
  other_param-update key other [] p apart = rw (laws.get-delete other key p, apart) refl
  other_param-update key other (t ∷ ts) p apart =
      rw (laws.get-set other key (join "," (t ∷ ts)) p, apart) refl

  colors_apart : (p : P) → AllAvoid "," (list_param "colors" p)
  colors_apart p = elim (Bool-cases (truthy (some (param "colors" p)))) [
    | inl e ↦ rw e (AllAvoid-split "," (param "colors" p))
    | inr e ↦ rw e tt
  ]

  module _ {F : Type 0} (to_id : String → ℕ) (to_number : String → F) where
    -- What is read after the colours in the URL are replaced.
    read_url-update :
        (ts : List String) (p : P)
        → All IsFull ts
        → AllAvoid "," ts
        → read_url to_id to_number (update_param "colors" (texts ts) p)
          ≡ record (read_url to_id to_number p) {
            filters = record (read_url to_id to_number p).filters { colors = ts };
          }
    unfolding read_url
    read_url-update ts p full apart =
        rw
          (
            list_param-update "colors" ts p full apart,
            other_param-update "colors" "category" ts p refl,
            other_param-update "colors" "subcategory" ts p refl,
            other_param-update "colors" "sizes" ts p refl,
            other_param-update "colors" "minPrice" ts p refl,
            other_param-update "colors" "maxPrice" ts p refl,
            other_param-update "colors" "search" ts p refl,
          )
          refl

    pub read_url-check_color :
        (checked : Bool) (color : String) (p : P)
        → IsFull color
        → Avoids "," color
        → All IsFull (list_param "colors" p)
        → let old = read_url to_id to_number p in
          let left = keep (λ c. not (str_eq c color)) old.filters.colors in
          read_url to_id to_number (check_color checked color old.filters.colors p) ≡ record old {
            filters = record old.filters {
              colors = if checked then old.filters.colors ++ (color ∷ []) else left;
            };
          }
    unfolding read_url check_color update_url_params
    read_url-check_color true color p full apart fulls =
        let now = list_param "colors" p in
        let apart_now = colors_apart p in
        read_url-update (now ++ (color ∷ [])) p
          (All-append IsFull now (color ∷ []) fulls (full, tt))
          (All-append (Avoids ",") now (color ∷ []) apart_now (apart, tt))
    read_url-check_color false color p full apart fulls =
        let now = list_param "colors" p in
        let left = keep (λ c. not (str_eq c color)) now in
        read_url-update left p (All-keep IsFull (λ c. not (str_eq c color)) now fulls)
          (All-keep (Avoids ",") (λ c. not (str_eq c color)) now (colors_apart p))

    -- Under the same conditions the colour that was ticked is chosen on the page, together with those
    -- before it, but if the page is then opened again at the same URL, no colour at all is chosen.
    pub reload-check_color :
        (color : String) (p : P)
        → IsFull color
        → Avoids "," color
        → All IsFull (list_param "colors" p)
        → let old = read_url to_id to_number p in
          let changed = check_color true color old.filters.colors p in
          ((follow_url to_id to_number old changed).filters.colors
            ≡ old.filters.colors ++ (color ∷ []))
          × ((open_url to_id to_number changed).filters.colors ≡ [])
    unfolding follow_url open_url
    reload-check_color color p full apart fulls =
        let old = read_url to_id to_number p in
        let changed = check_color true color old.filters.colors p in
        (
          rw
              (
                read_url-check_color true color p full apart fulls,
                same_id_refl old.filters.category,
                same_id_refl old.filters.subcategory,
              )
              refl,
          refl,
        )
