-- ===== src/Prelude/Decimal.antt =====
-- The decimal text of a number, as a template text shows it.
use Prim.Native.Nat.{ℕ, zero, suc, ◌-◌, ◌/◌, ◌%◌, ◌<◌, ◌≤◌}
use Prim.Native.Char.{code}
use Prim.Native.String
use Prim.Native.String.{String}
use mathlib.Core.Path.{◌≡◌, refl}
use mathlib.Core.Logic.{inl, inr}
use mathlib.Core.List.{List, [], ◌∷◌}
use native.Mathlib.Omega.{arith}
use text.Mathlib.TextLemmas.{nil-append, cons-append}
use go_moda_mayor.Prelude.Lists.{All}
use go_moda_mayor.Prelude.Tests.{ltb, ◌==◌, if◌then◌else◌, Bool-cases}

digit_of : List String → ℕ → String
digit_of [] n = ""
digit_of (d ∷ ds) n = if n == 0 then d else digit_of ds (n - 1)

abbrev digits : List String
digits = "0" ∷ "1" ∷ "2" ∷ "3" ∷ "4" ∷ "5" ∷ "6" ∷ "7" ∷ "8" ∷ "9" ∷ []

digit : ℕ → String
unfolding digit_of
digit n = digit_of digits n

show_digits : ℕ → ℕ → String
unfolding digit
show_digits zero n = ""
show_digits (suc fuel) n =
    let front = show_digits fuel (n / 10) in
    if ltb n 10 then digit n else String.◌++◌ front (digit (n % 10))

-- `String(n)`: each round drops a digit, so that `n + 1` rounds are enough.
unfoldable pub show_ℕ : ℕ → String
unfolding show_digits
show_ℕ n = show_digits (suc n) n

show_digits_enough : (f g n : ℕ) → n < f → n < g → show_digits f n ≡ show_digits g n
unfolding show_digits
show_digits_enough zero g n h k = absurd (omega arith)
show_digits_enough (suc f) zero n h k = absurd (omega arith)
show_digits_enough (suc f) (suc g) n h k = elim (Bool-cases (ltb n 10)) [
  | inl e ↦ rw e
  | inr e ↦ rw (e, show_digits_enough f g (n / 10) (ground arith) (ground arith))
]

-- The text of a number of two digits or more is that of its tenth and its last digit.
show_ℕ_lem :
    (n : ℕ)
    → show_ℕ n ≡ (if ltb n 10 then digit n else String.◌++◌ (show_ℕ (n / 10)) (digit (n % 10)))
unfolding show_ℕ
show_ℕ_lem n = elim (Bool-cases (ltb n 10)) [
  | inl e ↦ rw e
  | inr e ↦ rw (e, show_digits_enough n (suc (n / 10)) (n / 10) (ground arith) (omega arith))
]

-- Digits, or what stands before them in the code.
abbrev pub IsDigits : String → Type 0
IsDigits String.[] = Unit
IsDigits (String.◌∷◌ c s) = (code c ≤ b'9') × IsDigits s

append-IsDigits : (s t : String) → IsDigits s → IsDigits t → IsDigits (String.◌++◌ s t)
append-IsDigits String.[] t h k = rw nil-append k
append-IsDigits (String.◌∷◌ c s) t (d, h) k = rw cons-append (d, append-IsDigits s t h k)

digit_of-IsDigits : (ds : List String) (n : ℕ) → All IsDigits ds → IsDigits (digit_of ds n)
unfolding digit_of
digit_of-IsDigits [] n h = tt
digit_of-IsDigits (d ∷ ds) n (h, hs) = elim (Bool-cases (n == 0)) [
  | inl e ↦ rw e h
  | inr e ↦ rw e (digit_of-IsDigits ds (n - 1) hs)
]

digit-IsDigits : (n : ℕ) → IsDigits (digit n)
unfolding digit
digit-IsDigits n = digit_of-IsDigits digits n (omega arith)

show_digits-IsDigits : (f n : ℕ) → IsDigits (show_digits f n)
unfolding show_digits
show_digits-IsDigits zero n = tt
show_digits-IsDigits (suc f) n = elim (Bool-cases (ltb n 10)) [
  | inl e ↦ rw e (digit-IsDigits n)
  | inr e ↦ rw e (
      append-IsDigits _ (digit (n % 10)) (show_digits-IsDigits f (n / 10))
        (digit-IsDigits (n % 10)))
]

pub show_ℕ-IsDigits : (n : ℕ) → IsDigits (show_ℕ n)
unfolding show_ℕ
show_ℕ-IsDigits n = show_digits-IsDigits (suc n) n

two_digits : ◌≡◌ {A = String} (show_ℕ 3007) "3007"
unfolding show_ℕ
two_digits = refl
