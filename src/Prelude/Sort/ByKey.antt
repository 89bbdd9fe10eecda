-- ===== src/Prelude/Sort/ByKey.antt =====
-- A stable sort by a number: the order that results, and what it leaves in place.
use mathlib.Core.Bool.{Bool, true}
use mathlib.Core.List.{List, [], ◌∷◌}
use mathlib.Core.Logic.{inl, inr}
use mathlib.Core.Path.{◌≡◌, refl, ◌∙◌}
use Prim.Native.Nat.{ℕ, ◌≤◌}
use native.Mathlib.Omega.{arith}
use go_moda_mayor.Prelude.Lists.{All, keep}
use go_moda_mayor.Prelude.Sort.{insert_by, sort_by}
use go_moda_mayor.Prelude.Tests.{leb, ◌==◌, Bool-cases}

module _ {ℓ} {A : Type ℓ} (key : A → ℕ) where
  abbrev AtLeast : ℕ → List A → Type 0
  AtLeast n xs = All (λ x. n ≤ key x) xs

  -- Each element is followed by elements with no smaller number.
  abbrev pub IsAscending : List A → Type 0
  IsAscending [] = Unit
  IsAscending (x ∷ xs) = AtLeast (key x) xs × IsAscending xs

  abbrev by_key : A → A → Bool
  by_key x y = leb (key x) (key y)

  AtLeast-insert_by :
      (n : ℕ) (x : A) (ys : List A) → n ≤ key x → AtLeast n ys → AtLeast n (insert_by by_key x ys)
  unfolding insert_by
  AtLeast-insert_by n x [] h hs = (h, tt)
  AtLeast-insert_by n x (y ∷ ys) h (g, hs) = elim (Bool-cases (leb (key x) (key y))) [
    | inl e ↦ rw e (h, (g, hs))
    | inr e ↦ rw e (g, AtLeast-insert_by n x ys h hs)
  ]

  AtLeast-mono : (m n : ℕ) (ys : List A) → m ≤ n → AtLeast n ys → AtLeast m ys
  AtLeast-mono m n [] le hs = tt
  AtLeast-mono m n (y ∷ ys) le (h, hs) = (omega (arith, le, h), AtLeast-mono m n ys le hs)

  insert_by-IsAscending :
      (x : A) (ys : List A) → IsAscending ys → IsAscending (insert_by by_key x ys)
  unfolding insert_by
  insert_by-IsAscending x [] d = (tt, tt)
  insert_by-IsAscending x (y ∷ ys) (h, d) = elim (Bool-cases (leb (key x) (key y))) [
    | inl e ↦
        let le : key x ≤ key y = ground arith in
        rw e ((le, AtLeast-mono (key x) (key y) ys le h), (h, d))
    | inr e ↦ rw e (AtLeast-insert_by (key y) x ys (ground arith) h, insert_by-IsAscending x ys d)
  ]

  pub sort_by-IsAscending : (xs : List A) → IsAscending (sort_by by_key xs)
  unfolding sort_by
  sort_by-IsAscending [] = tt
  sort_by-IsAscending (x ∷ xs) =
      insert_by-IsAscending x (sort_by by_key xs) (sort_by-IsAscending xs)

  abbrev keyed : ℕ → List A → List A
  keyed n xs = keep (λ x. key x == n) xs

  keyed-insert_by :
      (n : ℕ) (x : A) (ys : List A) → keyed n (insert_by by_key x ys) ≡ keyed n (x ∷ ys)
  unfolding insert_by
  keyed-insert_by n x [] = refl
  keyed-insert_by n x (y ∷ ys) = ground (arith, keyed-insert_by n x ys)

  -- The elements with one number keep their order.
  pub keep-sort_by :
      (n : ℕ) (xs : List A) → keep (λ x. key x == n) (sort_by by_key xs) ≡ keep (λ x. key x == n) xs
  unfolding sort_by
  keep-sort_by n [] = refl
  keep-sort_by n (x ∷ xs) =
      keyed-insert_by n x (sort_by by_key xs) ∙ (ground (arith, keep-sort_by n xs))

  insert_by_least : (x : A) (ys : List A) → AtLeast (key x) ys → insert_by by_key x ys ≡ x ∷ ys
  unfolding insert_by
  insert_by_least x [] h = refl
  insert_by_least x (y ∷ ys) (h, hs) =
      let e : leb (key x) (key y) ≡ true = ground arith in rw e refl

  -- A list in order stays as it is.
  pub sort_by_sorted : (xs : List A) → IsAscending xs → sort_by by_key xs ≡ xs
  unfolding sort_by
  sort_by_sorted [] d = refl
  sort_by_sorted (x ∷ xs) (h, d) = rw (sort_by_sorted xs d) (insert_by_least x xs h)

  -- Elements that all have the number 0 are in order.
  pub zeros-IsAscending : (xs : List A) → All (λ x. key x ≡ 0) xs → IsAscending xs
  zeros-IsAscending [] h = tt
  zeros-IsAscending (x ∷ xs) (h, hs) = (least xs, zeros-IsAscending xs hs)
    where
      least : (ys : List A) → AtLeast (key x) ys
      least [] = tt
      least (y ∷ ys) = (omega (arith, h), least ys)

module _ {ℓ} {A : Type ℓ} where
  insert_by_always : (x : A) (ys : List A) → insert_by (λ a b. true) x ys ≡ x ∷ ys
  unfolding insert_by
  insert_by_always x [] = refl
  insert_by_always x (y ∷ ys) = refl

  -- A comparison that is never positive changes nothing.
  pub sort_by_always : (xs : List A) → sort_by (λ a b. true) xs ≡ xs
  unfolding sort_by
  sort_by_always [] = refl
  sort_by_always (x ∷ xs) = rw (sort_by_always xs) (insert_by_always x xs)
