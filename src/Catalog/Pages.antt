-- ===== src/Catalog/Pages.antt =====
-- The pages of the catalogue of front/src/app/productos/ProductosClient.tsx.
use Prim.Native.Nat.{min, max}
use go_moda_mayor.Prelude.{
  ℕ, zero, suc, ◌+◌, ◌-◌, ◌*◌, ◌≤◌, ◌<◌, ◌≡◌, refl, ap, sym, ◌∙◌, ◌↔◌, Bool, true, Option, none,
  some, List, [], ◌∷◌, ◌++◌, arith, if◌then◌else◌, leb, keep, take, drop, length, get_elem?,
  length-take, length-drop, take-take-drop, take_all, drop_all, length-keep, take-nil,
}
use go_moda_mayor.Catalog.{CatalogProduct, Filters, filtered_products, passes}

-- `limit`
abbrev pub page_size : ℕ
page_size = 24

-- `slice(start, start + limit)`
pub paginated : {A : Type 0} → ℕ → List A → List A
paginated page xs = take page_size (drop ((page - 1) * page_size) xs)

-- Whether the buttons are disabled, and what they do.
pub previous_disabled : ℕ → Bool
previous_disabled page = leb page 1

pub next_disabled : {A : Type 0} → ℕ → List A → Bool
next_disabled page xs = leb (length xs) (page * page_size)

pub previous_page : ℕ → ℕ
previous_page page = max 1 (page - 1)

pub click_previous : ℕ → ℕ
unfolding previous_disabled previous_page
click_previous page = if previous_disabled page then page else previous_page page

-- The numbers of the first and the last product shown, if there is any.
unfoldable pub shown_range : {A : Type 0} → ℕ → List A → Option (ℕ × ℕ)
shown_range page [] = none
shown_range page (x ∷ xs) =
    some ((page - 1) * page_size + 1, min (page * page_size) (length (x ∷ xs)))

module _ {A : Type 0} where
  -- The first `n` pages, one after the other.
  pub pages : ℕ → List A → List A
  pages zero xs = []
  pages (suc n) xs = pages n xs ++ paginated (suc n) xs

  pages-eq-take : (n : ℕ) (xs : List A) → pages n xs ≡ take (n * page_size) xs
  unfolding pages paginated
  pages-eq-take zero xs = refl
  pages-eq-take (suc n) xs =
      let start : (suc n - 1) * page_size ≡ n * page_size = omega arith in
      let end : suc n * page_size ≡ n * page_size + page_size = omega arith in
      rw (start, end, pages-eq-take n xs) (take-take-drop (n * page_size) page_size xs)

  -- Enough pages hold all products, each once and in order.
  pub pages_all : (n : ℕ) (xs : List A) → length xs ≤ n * page_size → pages n xs ≡ xs
  pages_all n xs h = pages-eq-take n xs ∙ take_all (n * page_size) xs h

  get_elem?-drop : (m i : ℕ) (xs : List A) → get_elem? (drop m xs) i ≡ get_elem? xs (m + i)
  get_elem?-drop zero i xs = let e : 0 + i ≡ i = omega arith in rw e refl
  get_elem?-drop (suc m) i [] = refl
  get_elem?-drop (suc m) i (x ∷ xs) =
      let e : suc m + i ≡ suc (m + i) = omega arith in rw e (get_elem?-drop m i xs)

  get_elem?-take : (n i : ℕ) (xs : List A) → i < n → get_elem? (take n xs) i ≡ get_elem? xs i
  get_elem?-take zero i xs h = absurd (omega arith)
  get_elem?-take (suc n) i [] h = refl
  get_elem?-take (suc n) zero (x ∷ xs) h = refl
  get_elem?-take (suc n) (suc i) (x ∷ xs) h = get_elem?-take n i xs (omega arith)

  get_elem?-paginated :
      (page i : ℕ) (xs : List A)
      → i < page_size
      → get_elem? (paginated page xs) i ≡ get_elem? xs ((page - 1) * page_size + i)
  unfolding paginated
  get_elem?-paginated page i xs h =
      get_elem?-take page_size i (drop ((page - 1) * page_size) xs) h
      ∙ get_elem?-drop ((page - 1) * page_size) i xs

  length-paginated :
      (page : ℕ) (xs : List A)
      → length (paginated page xs) ≡ min page_size (length xs - (page - 1) * page_size)
  unfolding paginated
  length-paginated page xs =
      let from = (page - 1) * page_size in
      length-take page_size (drop from xs) ∙ ap (min page_size) (length-drop from xs)

  next_disabled-paginated :
      (page : ℕ) (xs : List A) → (next_disabled page xs ≡ true) ↔ (paginated (page + 1) xs ≡ [])
  unfolding next_disabled paginated
  next_disabled-paginated page xs = (
    λ (e : next_disabled page xs ≡ true).
        let most : length xs ≤ (page + 1 - 1) * page_size = ground arith in
        rw (drop_all ((page + 1 - 1) * page_size) xs most) (take-nil page_size),
    λ (e : paginated (page + 1) xs ≡ []).
        let none_left : length (paginated (page + 1) xs) ≡ 0 = ap length e in
        let most : length xs ≤ page * page_size =
          omega (arith, none_left, length-paginated (page + 1) xs) in
        ground arith,
  )

  -- On a page that begins within the list, the numbers `a` and `b` that are shown are the places,
  -- counted from 1, of the first and the last product of the page in the list; the page shows
  -- `b + 1 - a` products, one at least and 24 at most; and the button for the next page is disabled
  -- just if that page would be empty.
  pub shown_range_lem :
      (page a b : ℕ) (xs : List A)
      → 1 ≤ page
      → (page - 1) * page_size < length xs
      → shown_range page xs ≡ some (a, b)
      → let shown = paginated page xs in
        (1 ≤ a)
        × (get_elem? xs (a - 1) ≡ get_elem? shown 0)
        × (get_elem? xs (b - 1) ≡ get_elem? shown (length shown - 1))
        × (a + length shown ≡ b + 1)
        × (1 ≤ length shown)
        × (length shown ≤ page_size)
        × ((next_disabled page xs ≡ true) ↔ (paginated (page + 1) xs ≡ []))
  unfolding shown_range next_disabled
  shown_range_lem page a b [] one h e = absurd (omega arith)
  shown_range_lem page a b (x ∷ xs) one h e =
      let shown = paginated page (x ∷ xs) in
      let first : (page - 1) * page_size + 1 ≡ a = cc in
      let last : min (page * page_size) (length (x ∷ xs)) ≡ b = cc in
      let size = length-paginated page (x ∷ xs) in
      let start : a - 1 ≡ (page - 1) * page_size + 0 = omega (arith, first) in
      let end : b - 1 ≡ (page - 1) * page_size + (length shown - 1) =
        omega (arith, last, size, one, h) in
      (
        omega (arith, first),
        rw start (sym (get_elem?-paginated page 0 (x ∷ xs) (omega arith))),
        rw end (sym (get_elem?-paginated page (length shown - 1) (x ∷ xs) (omega (arith, size)))),
        omega (arith, first, last, size, one, h),
        omega (arith, size, h),
        omega (arith, size),
        next_disabled-paginated page (x ∷ xs),
      )

module _ {F : Type 0} (less : F → F → Bool) (is_nan : F → Bool) where
  -- The server is asked for one page of 24 products, and what it answers is cut into pages again: if
  -- it sends at most 24, then whatever the filters, the button for the next page is disabled on the
  -- first page, and every later page is empty.
  pub paged_twice :
      (f : Filters F) (ps : List (CatalogProduct F))
      → length ps ≤ page_size
      → let shown = filtered_products less is_nan f ps in
        (next_disabled 1 shown ≡ true) × ((page : ℕ) → paginated (page + 2) shown ≡ [])
  unfolding next_disabled paginated filtered_products
  paged_twice f ps h =
      let fewer = length-keep (passes less is_nan f) ps in
      (
        ground arith,
        λ page.
            let from = (page + 2 - 1) * page_size in
            rw (drop_all from (keep (passes less is_nan f) ps) (omega (arith, fewer, h)))
              (take-nil page_size),
      )
