-- ===== src/Inventory/Load/Together.antt =====
-- `Promise.all` over a list, as front/src/app/admin/inventario/page.tsx uses it: all or nothing.
use go_moda_mayor.Orders.{Result, ok, thrown}
use go_moda_mayor.Prelude.{◌≡◌, refl, Bool, true, false, ◌⊎◌, inl, inr, List, [], ◌∷◌, String, any}
use go_moda_mayor.Inventory.Load.{gather, and_also, settle_all, promise_all}

abbrev pub is_thrown : {B : Type 0} → Result B → Bool
is_thrown (ok y) = false
is_thrown (thrown m) = true

-- The two lists correspond, element by element.
abbrev pub Each : {A B : Type 0} → (A → B → Type 0) → List A → List B → Type 0
Each P [] [] = Unit
Each P [] (y ∷ ys) = ⊥
Each P (x ∷ xs) [] = ⊥
Each P (x ∷ xs) (y ∷ ys) = P x y × Each P xs ys

module _ {A B : Type 0} where
  pub Each-mono :
      (P Q : A → B → Type 0) (xs : List A) (ys : List B)
      → ((x : A) (y : B) → P x y → Q x y)
      → Each P xs ys
      → Each Q xs ys
  Each-mono P Q [] [] f h = tt
  Each-mono P Q [] (y ∷ ys) f h = h
  Each-mono P Q (x ∷ xs) [] f h = h
  Each-mono P Q (x ∷ xs) (y ∷ ys) f (h, hs) = (f x y h, Each-mono P Q xs ys f hs)

  -- Everything came, or some request failed.
  abbrev Gathered : (A → Result B) → List A → List B × List String → Type 0
  Gathered f xs (ys, []) = Each (λ x y. f x ≡ ok y) xs ys
  Gathered f xs (ys, m ∷ ms) = any (λ x. is_thrown (f x)) xs ≡ true

  gather-and_also :
      (f : A → Result B) (x : A) (xs : List A) (r : Result B) (t : List B × List String)
      → f x ≡ r
      → Gathered f xs t
      → Gathered f (x ∷ xs) (and_also r t)
  unfolding and_also
  gather-and_also f x xs (ok y) (ys, []) e h = (e, h)
  gather-and_also f x xs (ok y) (ys, m ∷ ms) e h = rw (e, h) refl
  gather-and_also f x xs (thrown m) (ys, ms) e h = rw e refl

  gather-Gathered : (f : A → Result B) (xs : List A) → Gathered f xs (gather f xs)
  unfolding gather
  gather-Gathered f [] = tt
  gather-Gathered f (x ∷ xs) =
      gather-and_also f x xs (f x) (gather f xs) refl (gather-Gathered f xs)

  settle_all-Settled :
      (first_of : String → List String → String) (f : A → Result B) (xs : List A)
      (t : List B × List String) (r : Result (List B))
      → settle_all first_of t.0 t.1 ≡ r
      → Gathered f xs t
      → ((ys : List B) × (r ≡ ok ys) × Each (λ x y. f x ≡ ok y) xs ys)
        ⊎ ((m : String) × (r ≡ thrown m) × (any (λ x. is_thrown (f x)) xs ≡ true))
  unfolding settle_all
  settle_all-Settled first_of f xs (ys, []) r e h = inl (ys, cc, h)
  settle_all-Settled first_of f xs (ys, m ∷ ms) r e h = inr (first_of m ms, cc, h)

  pub promise_all-Settled :
      (first_of : String → List String → String) (f : A → Result B) (xs : List A)
      → ((ys : List B) × (promise_all first_of f xs ≡ ok ys) × Each (λ x y. f x ≡ ok y) xs ys)
        ⊎ ((m : String) × (promise_all first_of f xs ≡ thrown m)
            × (any (λ x. is_thrown (f x)) xs ≡ true))
  unfolding promise_all
  promise_all-Settled first_of f xs =
      settle_all-Settled first_of f xs (gather f xs) _ refl (gather-Gathered f xs)

  pub Each-none_thrown :
      (f : A → Result B) (xs : List A) (ys : List B)
      → Each (λ x y. f x ≡ ok y) xs ys
      → any (λ x. is_thrown (f x)) xs ≡ false
  Each-none_thrown f [] [] h = refl
  Each-none_thrown f [] (y ∷ ys) h = absurd h
  Each-none_thrown f (x ∷ xs) [] h = absurd h
  Each-none_thrown f (x ∷ xs) (y ∷ ys) (h, hs) = rw (h, Each-none_thrown f xs ys hs) refl

  -- All come together or not at all: it fails just if one of them does.
  pub promise_all-thrown :
      (first_of : String → List String → String) (f : A → Result B) (xs : List A)
      → is_thrown (promise_all first_of f xs) ≡ any (λ x. is_thrown (f x)) xs
  promise_all-thrown first_of f xs = elim (promise_all-Settled first_of f xs) [
    | inl (ys, e, each) ↦ rw (e, Each-none_thrown f xs ys each) refl
    | inr (m, e, bad) ↦ rw (e, bad) refl
  ]
