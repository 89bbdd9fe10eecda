-- ===== src/Registration/Phone.antt =====
-- The check of the phone number in front/src/app/registro/page.tsx.
use Prim.Native.Char.{Char}
use Prim.Native.String.{[], ◌∷◌, ◌++◌}
use text.Mathlib.TextLemmas.{nil-append, cons-append}
use go_moda_mayor.Prelude.{◌≡◌, refl, ap, true, not, ◌||◌, String, arith, ◌==◌, is_some}
use go_moda_mayor.Registration.{
  is_mark, remove_marks, drop_54, clean_phone, size, is_valid, phone_error_of,
}

remove_marks-append :
    (s : String) (c : Char) (t : String)
    → is_mark c ≡ true
    → remove_marks (s ++ (c ∷ t)) ≡ remove_marks (s ++ t)
unfolding remove_marks
remove_marks-append [] c t m = rw (nil-append (c ∷ t), nil-append t, m) refl
remove_marks-append (d ∷ s) c t m =
    rw (cons-append d s (c ∷ t), cons-append d s t, remove_marks-append s c t m) refl

-- A space, a hyphen, a bracket or a plus makes no difference anywhere in a phone number.
pub clean_phone-append :
    (s : String) (c : Char) (t : String)
    → is_mark c ≡ true
    → clean_phone (s ++ (c ∷ t)) ≡ clean_phone (s ++ t)
unfolding clean_phone
clean_phone-append s c t m = ap drop_54 (remove_marks-append s c t m)

-- The two checks agree.
pub phone_error_of-is_valid :
    (p : String) → is_some (phone_error_of p) ≡ not (is_valid p || size p == 0)
unfolding phone_error_of is_valid
phone_error_of-is_valid [] = refl
phone_error_of-is_valid (c ∷ s) = ground arith
