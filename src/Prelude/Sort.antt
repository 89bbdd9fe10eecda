-- ===== src/Prelude/Sort.antt =====
-- JavaScript's `sort`, which is stable, for a comparison `leq`: whether the first may stay before the
-- second, which is that the comparing function gives no positive number.
pub mod ByKey
use mathlib.Core.Bool.{Bool, true, false}
use mathlib.Core.List.{List, [], ◌∷◌}
use mathlib.Core.Logic.{◌↔◌, inl, inr}
use mathlib.Core.Option.{Option, none, some}
use mathlib.Core.Path.{◌≡◌, refl, sym, subst}
use go_moda_mayor.Prelude.Lists.{All, Within, keep}
use go_moda_mayor.Prelude.Tests.{if◌then◌else◌, Bool-cases}

module _ {ℓ} {A : Type ℓ} where
  -- `xs[0]`
  abbrev pub first : List A → Option A
  first [] = none
  first (x ∷ xs) = some x

  pub some_injective : {x y : A} → some x ≡ some y → x ≡ y
  some_injective e = cc

  first-Within : (xs : List A) (x : A) → first xs ≡ some x → Within x xs
  first-Within [] x e = cc
  first-Within (y ∷ xs) x e = inl (cc)

  pub All-Within {κ} : (P : A → Type κ) (xs : List A) (x : A) → All P xs → Within x xs → P x
  All-Within P [] x hs w = absurd w.1
  All-Within P (y ∷ xs) x (h, hs) (inl e) = subst P (sym e) h
  All-Within P (y ∷ xs) x (h, hs) (inr w) = All-Within P xs x hs w

  pub All-mono {κ μ} :
      (P : A → Type κ) (Q : A → Type μ) (xs : List A) → ((x : A) → P x → Q x) → All P xs → All Q xs
  All-mono P Q [] f hs = tt
  All-mono P Q (x ∷ xs) f (h, hs) = (f x h, All-mono P Q xs f hs)

  pub All-Within_self : (xs : List A) → All (λ x. Within x xs) xs
  All-Within_self [] = tt
  All-Within_self (x ∷ xs) = (
    inl refl,
    All-mono (λ y. Within y xs) (λ y. Within y (x ∷ xs)) xs (λ y w. inr w) (All-Within_self xs),
  )

  -- What all elements kept have, and back.
  pub All-keep_if {κ} :
      (P : A → Type κ) (p : A → Bool) (xs : List A)
      → All P (keep p xs)
      → All (λ x. p x ≡ true → P x) xs
  All-keep_if P p [] hs = tt
  All-keep_if P p (x ∷ xs) hs = elim (Bool-cases (p x)) [
    | inl e ↦
        let both : P x × All P (keep p xs) = rw e at hs in (λ _. both.0, All-keep_if P p xs both.1)
    | inr e ↦ (λ t. absurd (cc), All-keep_if P p xs (rw e at hs))
  ]

  pub keep-All_if {κ} :
      (P : A → Type κ) (p : A → Bool) (xs : List A)
      → All (λ x. p x ≡ true → P x) xs
      → All P (keep p xs)
  keep-All_if P p [] hs = tt
  keep-All_if P p (x ∷ xs) (h, hs) = elim (Bool-cases (p x)) [
    | inl e ↦ rw e (h e, keep-All_if P p xs hs)
    | inr e ↦ rw e (keep-All_if P p xs hs)
  ]

  module _ (leq : A → A → Bool) where
    unfoldable pub insert_by : A → List A → List A
    insert_by x [] = x ∷ []
    insert_by x (y ∷ ys) = if leq x y then x ∷ y ∷ ys else y ∷ insert_by x ys

    unfoldable pub sort_by : List A → List A
    unfolding insert_by
    sort_by [] = []
    sort_by (x ∷ xs) = insert_by x (sort_by xs)

    All-insert_by {κ} :
        (P : A → Type κ) (x : A) (ys : List A) → All P (insert_by x ys) ↔ (P x × All P ys)
    unfolding insert_by
    All-insert_by P x [] = (λ h. h, λ h. h)
    All-insert_by P x (y ∷ ys) = elim (Bool-cases (leq x y)) [
      | inl e ↦ rw e (λ h. h, λ h. h)
      | inr e ↦
          let (there, back) = All-insert_by P x ys in
          rw e (λ h. ((there h.1).0, (h.0, (there h.1).1)), λ h. (h.1.0, back (h.0, h.1.1)))
    ]

    pub All-sort_by {κ} : (P : A → Type κ) (xs : List A) → All P (sort_by xs) ↔ All P xs
    unfolding sort_by
    All-sort_by P [] = (λ h. h, λ h. h)
    All-sort_by P (x ∷ xs) =
        let (there, back) = All-insert_by P x (sort_by xs) in
        let (deep, up) = All-sort_by P xs in
        (λ h. ((there h).0, deep (there h).1), λ h. back (h.0, up h.1))

    -- The first element after sorting stands in the list.
    pub Within-sort_by : (xs : List A) (x : A) → first (sort_by xs) ≡ some x → Within x xs
    Within-sort_by xs x e =
        All-Within (λ y. Within y xs) (sort_by xs) x
          ((All-sort_by (λ y. Within y xs) xs).1 (All-Within_self xs))
          (first-Within (sort_by xs) x e)

    module _ (total : (x y : A) → leq x y ≡ false → leq y x ≡ true)
        (trans : (x y z : A) → leq x y ≡ true → leq y z ≡ true → leq x z ≡ true) where
      abbrev Least : A → List A → Type 0
      Least x ys = All (λ y. leq x y ≡ true) ys

      leq_refl : (x : A) → leq x x ≡ true
      leq_refl x = elim (Bool-cases (leq x x)) [ inl e ↦ e | inr e ↦ total x x e ]

      insert_by-Least :
          (x y : A) (ys : List A)
          → ((z : A) → first ys ≡ some z → Least z ys)
          → first (insert_by x ys) ≡ some y
          → Least y (insert_by x ys)
      unfolding insert_by
      insert_by-Least x y [] old e = let same : x ≡ y = cc in (rw same (leq_refl y), tt)
      insert_by-Least x y (z ∷ zs) old e = elim (Bool-cases (leq x z)) [
        | inl l ↦
            let same : x ≡ y = some_injective (rw l at e) in
            let rest =
              All-mono (λ w. leq z w ≡ true) (λ w. leq x w ≡ true) zs (λ w. trans x z w l)
                (old z refl).1 in
            rw l (subst (λ y. Least y (x ∷ z ∷ zs)) same (leq_refl x, (l, rest)))
        | inr l ↦
            let same : z ≡ y = some_injective (rw l at e) in
            rw l (
              subst (λ y. Least y (z ∷ insert_by x zs)) same
                (
                  leq_refl z,
                  (All-insert_by (λ w. leq z w ≡ true) x zs).1 (total x z l, (old z refl).1),
                ))
      ]

      pub sort_by-Least : (xs : List A) (y : A) → first (sort_by xs) ≡ some y → Least y xs
      unfolding sort_by
      sort_by-Least xs y e = (All-sort_by (λ z. leq y z ≡ true) xs).0 (sorted xs y e)
        where
          sorted : (xs : List A) (y : A) → first (sort_by xs) ≡ some y → Least y (sort_by xs)
          sorted [] y e = tt
          sorted (x ∷ xs) y e = insert_by-Least x y (sort_by xs) (λ z. sorted xs z) e
