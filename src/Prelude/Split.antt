-- ===== src/Prelude/Split.antt =====
-- JavaScript's `split` and `join` at a separator of one character.
use Prim.Native.Char.{Char, code}
use Prim.Native.String
use Prim.Native.String.{String, [], ◌∷◌}
use mathlib.Core.Bool.{true, false}
use mathlib.Core.List
use mathlib.Core.Logic.{◌≢◌, inl, inr}
use mathlib.Core.Path.{◌≡◌, refl, ap, ◌∙◌}
use native.Mathlib.Omega.{arith}
use text.Mathlib.TextEquality.{Char-path}
use text.Mathlib.TextLemmas.{nil-append, cons-append}
use go_moda_mayor.Prelude.Lists.{All}
use go_moda_mayor.Prelude.Tests.{◌==◌, if◌then◌else◌, Bool-cases}

infixr 65 ◌++◌
abbrev ◌++◌ : String → String → String
s ++ t = String.◌++◌ s t

abbrev pub Words : Type 0
Words = List.List String

unfoldable pub push_char : Char → Words → Words
push_char c List.[] = List.◌∷◌ (c ∷ []) List.[]
push_char c (List.◌∷◌ w ws) = List.◌∷◌ (c ∷ w) ws

-- `s.split(sep)`
unfoldable pub split : Char → String → Words
unfolding push_char
split sep [] = List.◌∷◌ "" List.[]
split sep (c ∷ s) =
    if code c == code sep then List.◌∷◌ "" (split sep s) else push_char c (split sep s)

-- `words.join(sep)`
unfoldable pub join : Char → Words → String
join sep List.[] = ""
join sep (List.◌∷◌ w List.[]) = w
join sep (List.◌∷◌ w (List.◌∷◌ v ws)) = w ++ (sep ∷ join sep (List.◌∷◌ v ws))

-- The text does not contain the character.
abbrev pub Avoids : Char → String → Type 0
Avoids sep [] = Unit
Avoids sep (c ∷ s) = (code c ≢ code sep) × Avoids sep s

abbrev pub AllAvoid : Char → Words → Type 0
AllAvoid sep ws = All (Avoids sep) ws

join-push_char : (sep c : Char) (ws : Words) → join sep (push_char c ws) ≡ c ∷ join sep ws
unfolding join push_char
join-push_char sep c List.[] = refl
join-push_char sep c (List.◌∷◌ w List.[]) = refl
join-push_char sep c (List.◌∷◌ w (List.◌∷◌ v ws)) = cons-append c w _

-- A split text has a first word.
split-cons : (sep : Char) (s : String) → (w : String) × (ws : Words) × (split sep s ≡ List.◌∷◌ w ws)
unfolding split
split-cons sep [] = ("", List.[], refl)
split-cons sep (c ∷ s) = elim (Bool-cases (code c == code sep)) [
  | inl e ↦ ("", split sep s, rw e)
  | inr e ↦ let (w, ws, h) = split-cons sep s in (c ∷ w, ws, rw (e, h))
]

join-cons :
    (sep : Char) (s : String) → join sep (List.◌∷◌ "" (split sep s)) ≡ sep ∷ join sep (split sep s)
unfolding join
join-cons sep s = let (w, ws, h) = split-cons sep s in rw h (nil-append _)

pub join-split : (sep : Char) (s : String) → join sep (split sep s) ≡ s
unfolding split
join-split sep [] = unfold join in refl
join-split sep (c ∷ s) = elim (Bool-cases (code c == code sep)) [
  | inl e ↦
      let same : code sep ≡ code c = ground arith in
      rw e (
        join-cons sep s
        ∙ ap (λ (t : String). sep ∷ t) (join-split sep s)
        ∙ ap (λ (d : Char). d ∷ s) (Char-path sep c same))
  | inr e ↦ rw (e, join-push_char sep c (split sep s), join-split sep s)
]

pub split-append :
    (sep : Char) (a b : String)
    → Avoids sep a
    → split sep (a ++ (sep ∷ b)) ≡ List.◌∷◌ a (split sep b)
unfolding split
split-append sep [] b h =
    let same : (code sep == code sep) ≡ true = ground arith in rw (nil-append (sep ∷ b), same) refl
split-append sep (c ∷ a) b (d, h) =
    let other : (code c == code sep) ≡ false = ground arith in
    rw (cons-append c a (sep ∷ b), other, split-append sep a b h) refl

pub split-one : (sep : Char) (a : String) → Avoids sep a → split sep a ≡ List.◌∷◌ a List.[]
unfolding split
split-one sep [] h = refl
split-one sep (c ∷ a) (d, h) =
    let other : (code c == code sep) ≡ false = ground arith in rw (other, split-one sep a h) refl

-- Words that do not contain the separator are read back, if there is one at least.
pub split-join :
    (sep : Char) (w : String) (ws : Words)
    → AllAvoid sep (List.◌∷◌ w ws)
    → split sep (join sep (List.◌∷◌ w ws)) ≡ List.◌∷◌ w ws
unfolding join
split-join sep w List.[] (h, hs) = split-one sep w h
split-join sep w (List.◌∷◌ v ws) (h, hs) =
    split-append sep w (join sep (List.◌∷◌ v ws)) h
    ∙ ap (λ (us : Words). List.◌∷◌ w us) (split-join sep v ws hs)

AllAvoid-push_char :
    (sep c : Char) (ws : Words)
    → (code c == code sep) ≡ false
    → AllAvoid sep ws
    → AllAvoid sep (push_char c ws)
unfolding push_char
AllAvoid-push_char sep c List.[] e h = ((ground arith, tt), tt)
AllAvoid-push_char sep c (List.◌∷◌ w ws) e (h, hs) = ((ground arith, h), hs)

pub AllAvoid-split : (sep : Char) (s : String) → AllAvoid sep (split sep s)
unfolding split
AllAvoid-split sep [] = (tt, tt)
AllAvoid-split sep (c ∷ s) = elim (Bool-cases (code c == code sep)) [
  | inl e ↦ rw e (tt, AllAvoid-split sep s)
  | inr e ↦ rw e (AllAvoid-push_char sep c (split sep s) e (AllAvoid-split sep s))
]
