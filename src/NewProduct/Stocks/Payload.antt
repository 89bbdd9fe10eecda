-- ===== src/NewProduct/Stocks/Payload.antt =====
-- The stocks that front/src/app/admin/productos/nuevo/page.tsx posts, against those that were typed.
pub mod Typed
use text.Mathlib.TextEquality.{eq_iff}
use go_moda_mayor.Prelude.{
  ℕ, zero, suc, ◌≡◌, refl, ◌<◌, Bool, true, false, ◌&&◌, Option, none, some, List, [], ◌∷◌, ◌++◌,
  String, ◌==◌, ltb, if◌then◌else◌, str_eq, All, Bool-cases, inl, inr, arith, ◌∙◌, All-append,
}
use go_moda_mayor.NewProduct.Variants.{Stocks}
use go_moda_mayor.NewProduct.Stocks.{
  StockRow, same_id, put_place, put_stock, rows_of, stocks_payload,
}

-- The quantity that is posted for a variant at a place; 0 if there is none.
abbrev pub posted_at : Option ℕ → String → List StockRow → ℕ
posted_at v place [] = 0
posted_at v place (r ∷ rs) =
    if same_id r.variant_id v && str_eq r.location place then r.quantity else posted_at v place rs

abbrev pub Apart : String → List (String × ℕ) → Type 0
Apart place ps = All (λ e. str_eq e.0 place ≡ false) ps

abbrev pub Places : List (String × ℕ) → Type 0
Places [] = Unit
Places ((p, n) ∷ ps) = Apart p ps × Places ps

abbrev pub Unlike : Option ℕ → Stocks → Type 0
Unlike v st = All (λ e. same_id e.0 v ≡ false) st

-- Each variant stands once, and each place once for it.
abbrev pub IsKeyed : Stocks → Type 0
IsKeyed [] = Unit
IsKeyed ((v, ps) ∷ st) = Unlike v st × Places ps × IsKeyed st

abbrev pub at_place : String → List (String × ℕ) → ℕ
at_place place [] = 0
at_place place ((p, n) ∷ ps) = if str_eq p place then n else at_place place ps

abbrev pub at_variant : Option ℕ → Stocks → List (String × ℕ)
at_variant v [] = []
at_variant v ((w, ps) ∷ st) = if same_id w v then ps else at_variant v st

pub same_id_trans :
    (u v w : Option ℕ) → same_id v u ≡ true → same_id w v ≡ false → same_id w u ≡ false
same_id_trans none none w h k = k
same_id_trans none (some v) w h k = absurd (cc)
same_id_trans (some u) none w h k = absurd (cc)
same_id_trans (some u) (some v) none h k = refl
same_id_trans (some u) (some v) (some w) h k = ground arith

Unlike-same : (u v : Option ℕ) (st : Stocks) → same_id v u ≡ true → Unlike v st → Unlike u st
Unlike-same u v [] h hs = tt
Unlike-same u v (e ∷ st) h (k, hs) = (same_id_trans u v e.0 h k, Unlike-same u v st h hs)

at_place-Apart : (place : String) (ps : List (String × ℕ)) → Apart place ps → at_place place ps ≡ 0
at_place-Apart place [] h = refl
at_place-Apart place ((p, n) ∷ ps) (h, hs) = rw h (at_place-Apart place ps hs)

Apart-same :
    (p place : String) (ps : List (String × ℕ))
    → str_eq p place ≡ true
    → Apart p ps
    → Apart place ps
Apart-same p place [] h hs = tt
Apart-same p place ((q, n) ∷ ps) h (k, hs) =
    (ground (arith, eq_iff p place, eq_iff q p, eq_iff q place), Apart-same p place ps h hs)

rows_of-other :
    (u v : Option ℕ) (place : String) (ps : List (String × ℕ)) (rest : List StockRow)
    → same_id v u ≡ false
    → posted_at u place (rows_of v ps ++ rest) ≡ posted_at u place rest
unfolding rows_of
rows_of-other u v place [] rest h = refl
rows_of-other u v place ((p, n) ∷ ps) rest h = elim (Bool-cases (ltb 0 n)) [
  | inl e ↦ rw (e, h) (rows_of-other u v place ps rest h)
  | inr e ↦ rw e (rows_of-other u v place ps rest h)
]

rows_of-same :
    (u v : Option ℕ) (place : String) (ps : List (String × ℕ)) (rest : List StockRow)
    → same_id v u ≡ true
    → Places ps
    → posted_at u place rest ≡ 0
    → posted_at u place (rows_of v ps ++ rest) ≡ at_place place ps
unfolding rows_of
rows_of-same u v place [] rest h ks z = z
rows_of-same u v place ((p, n) ∷ ps) rest h (k, ks) z =
    let tail = rows_of-same u v place ps rest h ks z in
    elim (Bool-cases (ltb 0 n)) [
      | inl e ↦ elim (Bool-cases (str_eq p place)) [
        | inl same ↦ rw (e, h, same) refl
        | inr other ↦ rw (e, h, other) tail
      ]
      | inr e ↦ elim (Bool-cases (str_eq p place)) [
        | inl same ↦
            let none_left = at_place-Apart place ps (Apart-same p place ps same k) in
            let zero_here : 0 ≡ n = ground arith in rw (e, same) (tail ∙ none_left ∙ zero_here)
        | inr other ↦ rw (e, other) tail
      ]
    ]

stocks_payload-Unlike :
    (u : Option ℕ) (place : String) (st : Stocks)
    → Unlike u st
    → posted_at u place (stocks_payload st) ≡ 0
unfolding stocks_payload
stocks_payload-Unlike u place [] h = refl
stocks_payload-Unlike u place ((v, ps) ∷ st) (h, hs) =
    rows_of-other u v place ps (stocks_payload st) h ∙ stocks_payload-Unlike u place st hs

pub posted_at-stocks_payload :
    (u : Option ℕ) (place : String) (st : Stocks)
    → IsKeyed st
    → posted_at u place (stocks_payload st) ≡ at_place place (at_variant u st)
unfolding stocks_payload
posted_at-stocks_payload u place [] h = refl
posted_at-stocks_payload u place ((v, ps) ∷ st) (h, k, hs) = elim (Bool-cases (same_id v u)) [
  | inl e ↦ rw e (
      rows_of-same u v place ps (stocks_payload st) e k
        (stocks_payload-Unlike u place st (Unlike-same u v st e h)))
  | inr e ↦
      rw e
        (rows_of-other u v place ps (stocks_payload st) e ∙ posted_at-stocks_payload u place st hs)
]
