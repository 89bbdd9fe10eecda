-- ===== src/NewProduct/Stocks/Payload/Typed.antt =====
-- A stock that is typed in front/src/app/admin/productos/nuevo/page.tsx, and what is posted then.
use text.Mathlib.TextEquality.{eq_iff}
use go_moda_mayor.Prelude.{
  ℕ, ◌≡◌, refl, ◌<◌, true, false, ◌&&◌, Option, none, some, List, [], ◌∷◌, String, ltb,
  if◌then◌else◌, str_eq, All, Bool-cases, inl, inr, arith, ◌∙◌, sym, All-append,
}
use go_moda_mayor.NewProduct.Variants.{Stocks}
use go_moda_mayor.NewProduct.Stocks.{
  StockRow, same_id, put_place, put_stock, rows_of, stocks_payload,
}
use go_moda_mayor.NewProduct.Stocks.Payload.{
  posted_at, IsKeyed, Apart, Places, Unlike, at_place, at_variant, posted_at-stocks_payload,
}

at_place-put_place :
    (p q : String) (n : ℕ) (ps : List (String × ℕ))
    → at_place q (put_place p n ps) ≡ (if str_eq p q then n else at_place q ps)
unfolding put_place
at_place-put_place p q n [] = refl
at_place-put_place p q n ((r, m) ∷ ps) =
    ground (arith, eq_iff r p, eq_iff r q, eq_iff p q, at_place-put_place p q n ps)

Apart-put_place :
    (r p : String) (n : ℕ) (ps : List (String × ℕ))
    → str_eq p r ≡ false
    → Apart r ps
    → Apart r (put_place p n ps)
unfolding put_place
Apart-put_place r p n [] h hs = (h, tt)
Apart-put_place r p n ((q, m) ∷ ps) h (k, hs) = elim (Bool-cases (str_eq q p)) [
  | inl e ↦ rw e (k, hs)
  | inr e ↦ rw e (k, Apart-put_place r p n ps h hs)
]

put_place-Places :
    (p : String) (n : ℕ) (ps : List (String × ℕ)) → Places ps → Places (put_place p n ps)
unfolding put_place
put_place-Places p n [] h = (tt, tt)
put_place-Places p n ((q, m) ∷ ps) (k, hs) = elim (Bool-cases (str_eq q p)) [
  | inl e ↦ rw e (k, hs)
  | inr e ↦
      let turned : str_eq p q ≡ false = ground (arith, eq_iff q p, eq_iff p q) in
      rw e (Apart-put_place q p n ps turned k, put_place-Places p n ps hs)
]

same_id_sym : (u v : Option ℕ) → same_id u v ≡ same_id v u
same_id_sym none none = refl
same_id_sym none (some v) = refl
same_id_sym (some u) none = refl
same_id_sym (some u) (some v) = ground arith

Unlike-put_stock :
    (w v : Option ℕ) (p : String) (n : ℕ) (st : Stocks)
    → same_id v w ≡ false
    → Unlike w st
    → Unlike w (put_stock v p n st)
unfolding put_stock
Unlike-put_stock w v p n [] h hs = (h, tt)
Unlike-put_stock w v p n ((u, ps) ∷ st) h (k, hs) = elim (Bool-cases (same_id u v)) [
  | inl e ↦ rw e (k, hs)
  | inr e ↦ rw e (k, Unlike-put_stock w v p n st h hs)
]

put_stock-IsKeyed :
    (v : Option ℕ) (p : String) (n : ℕ) (st : Stocks) → IsKeyed st → IsKeyed (put_stock v p n st)
unfolding put_stock
put_stock-IsKeyed v p n [] h = (tt, (tt, tt), tt)
put_stock-IsKeyed v p n ((u, ps) ∷ st) (h, k, hs) = elim (Bool-cases (same_id u v)) [
  | inl e ↦ rw e (h, put_place-Places p n ps k, hs)
  | inr e ↦
      rw e (Unlike-put_stock u v p n st (same_id_sym v u ∙ e) h, k, put_stock-IsKeyed v p n st hs)
]

-- Identifiers that agree with one agree with one another.
same_id-same : (u v w : Option ℕ) → same_id u v ≡ true → same_id u w ≡ same_id v w
same_id-same none none w h = refl
same_id-same none (some v) w h = absurd (cc)
same_id-same (some u) none w h = absurd (cc)
same_id-same (some u) (some v) none h = refl
same_id-same (some u) (some v) (some w) h = ground arith

at_variant-put_stock :
    (u v : Option ℕ) (p q : String) (n : ℕ) (st : Stocks)
    → at_place q (at_variant u (put_stock v p n st))
      ≡ (if same_id v u && str_eq p q then n else at_place q (at_variant u st))
unfolding put_stock
at_variant-put_stock u v p q n [] = ground arith
at_variant-put_stock u v p q n ((w, ps) ∷ st) = elim (Bool-cases (same_id w v)) [
  | inl e ↦ ground (arith, same_id-same w v u e, at_place-put_place p q n ps)
  | inr e ↦ elim (Bool-cases (same_id w u)) [
    | inl f ↦
        let other : same_id v u ≡ false = same_id_sym v u ∙ sym (same_id-same w u v f) ∙ e in
        rw (e, f, other) refl
    | inr f ↦ rw (e, f) (at_variant-put_stock u v p q n st)
  ]
]

abbrev Positive : List StockRow → Type 0
Positive rs = All (λ r. 0 < r.quantity) rs

rows_of-Positive : (v : Option ℕ) (ps : List (String × ℕ)) → Positive (rows_of v ps)
unfolding rows_of
rows_of-Positive v [] = tt
rows_of-Positive v ((p, n) ∷ ps) = elim (Bool-cases (ltb 0 n)) [
  | inl e ↦ rw e (ground arith, rows_of-Positive v ps)
  | inr e ↦ rw e (rows_of-Positive v ps)
]

stocks_payload-Positive : (st : Stocks) → Positive (stocks_payload st)
unfolding stocks_payload
stocks_payload-Positive [] = tt
stocks_payload-Positive ((v, ps) ∷ st) =
    All-append _ (rows_of v ps) (stocks_payload st) (rows_of-Positive v ps)
      (stocks_payload-Positive st)

-- Stocks that hold each variant and place once hold them once after a quantity is typed; what is posted
-- for its variant and place is then that quantity, for all others what would have been posted before,
-- and no quantity that is posted is zero.
pub posted_at-put_stock :
    (v : Option ℕ) (p : String) (n : ℕ) (st : Stocks)
    → IsKeyed st
    → IsKeyed (put_stock v p n st)
      × All (λ r. 0 < r.quantity) (stocks_payload (put_stock v p n st))
      × ((u : Option ℕ) (q : String)
          → posted_at u q (stocks_payload (put_stock v p n st))
            ≡ (if same_id v u && str_eq p q then n else posted_at u q (stocks_payload st)))
posted_at-put_stock v p n st k = (
  put_stock-IsKeyed v p n st k,
  stocks_payload-Positive (put_stock v p n st),
  λ u q.
      posted_at-stocks_payload u q (put_stock v p n st) (put_stock-IsKeyed v p n st k)
      ∙ at_variant-put_stock u v p q n st
      ∙ (rw (posted_at-stocks_payload u q st k) refl),
)
