-- ===== src/Products/Paged.antt =====
-- Where the products of `fetchProductsPaged` of front/src/utils/api.ts come from.
use go_moda_mayor.Prelude.{◌≡◌, refl, some, List, length, String, ◌⊎◌, inl, inr}
use go_moda_mayor.Orders.{Result, ok, thrown, Response, rejected, bad, unreadable, good}
use go_moda_mayor.Products.{
  Listing, array, page_of, neither, PagedProducts, Product, fetch_products, whole, retry, read_page,
  fetch_products_paged,
}

module _ {V : Type 0} where
  -- The paged answer gave the page.
  pub record IsPage (first : Response (Listing V)) (r : PagedProducts V) : Type 0 where
    pub listing : Listing V
    pub answered : first ≡ good listing
    pub read : fetch_products first ≡ ok r.items

  -- A full answer gave it, with the number of its products as the total.
  abbrev pub IsWhole : Response (Listing V) → PagedProducts V → Type 0
  IsWhole full r = (fetch_products full ≡ ok r.items) × (r.total ≡ some (length r.items))

  abbrev pub IsFailure : Response (Listing V) → Type 0
  IsFailure (good listing) = ⊥
  IsFailure (rejected m) = Unit
  IsFailure (bad status status_text body) = Unit
  IsFailure (unreadable m) = Unit

  abbrev pub Came :
      Response (Listing V)
      → Response (Listing V)
      → Response (Listing V)
      → Result (PagedProducts V)
      → Type 0
  Came first second third (ok r) = IsPage first r ⊎ IsWhole second r ⊎ IsWhole third r
  Came first second third (thrown m) =
      (IsFailure first × (fetch_products second ≡ thrown m))
      ⊎ ((first ≡ good neither)
          × ((e : String) × (fetch_products second ≡ thrown e))
          × (fetch_products third ≡ thrown m))

  whole-Came :
      (first second third : Response (Listing V)) (full : Result (List (Product V)))
      → IsFailure first
      → fetch_products second ≡ full
      → Came first second third (whole full)
  whole-Came first second third (ok items) f e = inr (inl (e, refl))
  whole-Came first second third (thrown m) f e = inl (f, e)

  last-Came :
      (second third : Response (Listing V)) (e : String) (full : Result (List (Product V)))
      → fetch_products second ≡ thrown e
      → fetch_products third ≡ full
      → Came (good neither) second third (whole full)
  last-Came second third e (ok items) failure f = inr (inr (f, refl))
  last-Came second third e (thrown m) failure f = inr (refl, (e, failure), f)

  retry-Came :
      (second third : Response (Listing V)) (full : Result (List (Product V)))
      → fetch_products second ≡ full
      → Came (good neither) second third (retry full third)
  unfolding retry
  retry-Came second third (ok items) e = inr (inl (e, refl))
  retry-Came second third (thrown m) e = last-Came second third m (fetch_products third) e refl

  read_page-Came :
      (listing : Listing V) (second third : Response (Listing V))
      → Came (good listing) second third (read_page listing second third)
  unfolding read_page fetch_products
  read_page-Came (array ps) second third =
      inl (record { listing = array ps; answered = refl; read = refl })
  read_page-Came (page_of ps total) second third =
      inl (record { listing = page_of ps total; answered = refl; read = refl })
  read_page-Came neither second third = retry-Came second third (fetch_products second) refl

  -- Whatever the answers, a paged fetch that returns products has those of the paged answer, or all
  -- those of a full one, with their number as the total; and one that throws has the error of the
  -- full fetch that follows a failure of the paged one, or, if the paged answer was no listing and
  -- that fetch failed, of the fetch after it.
  pub fetch_products_paged-Came :
      (first second third : Response (Listing V))
      → Came first second third (fetch_products_paged first second third)
  unfolding fetch_products_paged
  fetch_products_paged-Came (good listing) second third = read_page-Came listing second third
  fetch_products_paged-Came (rejected m) second third = whole-Came _ second third _ tt refl
  fetch_products_paged-Came (bad status status_text body) second third =
      whole-Came _ second third _ tt refl
  fetch_products_paged-Came (unreadable m) second third = whole-Came _ second third _ tt refl
