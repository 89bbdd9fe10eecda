-- ===== src/FocusTrap/Places.antt =====
-- Places in the list of elements of front/src/hooks/useFocusTrap.ts, and tests on them.
use go_moda_mayor.Prelude.{
  ℕ, zero, suc, ◌-◌, ◌<◌, ◌≡◌, ◌≢◌, refl, Bool, true, false, some, List, [], ◌∷◌, ◌==◌, ◌||◌,
  length, Within, Bool-cases, inl, inr, arith,
}
use go_moda_mayor.FocusTrap.{nth, index_of}

pub nth-Within : (i x : ℕ) (xs : List ℕ) → nth i xs ≡ some x → Within x xs
nth-Within i x [] e = grind arith
nth-Within zero x (y ∷ ys) e = inl (grind arith)
nth-Within (suc i) x (y ∷ ys) e = inr (nth-Within i x ys e)

pub nth-defined : (i : ℕ) (xs : List ℕ) → i < length xs → (x : ℕ) × (nth i xs ≡ some x)
nth-defined i [] h = grind arith
nth-defined zero (y ∷ ys) h = (y, refl)
nth-defined (suc i) (y ∷ ys) h = nth-defined i ys (omega (arith, h))

abbrev pub IsIndex : ℕ → List ℕ → Type 0
IsIndex x xs = (i : ℕ) × (index_of x xs ≡ some i) × (i < length xs)

pub pred-suc : (n : ℕ) → suc n - 1 ≡ n
pred-suc n = omega arith

pub ne_test : (a b : ℕ) → a ≢ b → (a == b) ≡ false
ne_test a b h = ground arith

pub suc_below : (i n : ℕ) → (i == n) ≡ false → i < suc n → suc i < suc n
suc_below i n e h = ground arith

pub suc-==-zero : (i : ℕ) → (suc i == 0) ≡ false
suc-==-zero i = ground arith

pub apart_of : (a b : ℕ) → (a == b) ≡ false → a ≢ b
apart_of a b e = ground arith

pub or-true : (b : Bool) → (b || true) ≡ true
or-true true = refl
or-true false = refl

==-self : (x : ℕ) → (x == x) ≡ true
==-self x = ground arith

pub Within-IsIndex : (x : ℕ) (xs : List ℕ) → Within x xs → IsIndex x xs
Within-IsIndex x [] (u, w) = elim w [ ]
Within-IsIndex x (y ∷ ys) (inl h) = rw h (rw (==-self y) (0, refl, omega arith))
Within-IsIndex x (y ∷ ys) (inr w) = elim (Bool-cases (x == y)) [
  | inl e ↦ rw e (0, refl, omega arith)
  | inr e ↦
      let (i, found, below) = Within-IsIndex x ys w in
      rw e (rw found (suc i, refl, omega (arith, below)))
]
