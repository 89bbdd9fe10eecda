-- ===== src/Orders/AuthText.antt =====
-- The text by which front/src/utils/api.ts marks an error of authentication, and how
-- front/src/hooks/useSales.ts takes it apart.
use Prim.Native.Char.{Char}
use Prim.Native.String
use Prim.Native.String.{String, [], ◌∷◌}
use mathlib.Core.List
use text.Mathlib.Text.{starts_with}
use text.Mathlib.TextEquality.{starts_with_iff}
use text.Mathlib.TextLemmas.{nil-append, cons-append, append_assoc, prefix-append}
use go_moda_mayor.Prelude.{ℕ, ◌≡◌, refl, ap, ◌∙◌, true, arith, if◌then◌else◌, text_or, some}
use go_moda_mayor.Prelude.Split.{Words, Avoids, split, join, join-split, split-append}
use go_moda_mayor.Prelude.Decimal.{show_ℕ, IsDigits, show_ℕ-IsDigits}

infixr 65 ◌++◌
abbrev ◌++◌ : String → String → String
s ++ t = String.◌++◌ s t

-- `AUTH_ERROR:${status}:${msg}`
unfoldable pub auth_error : ℕ → String → String
auth_error status message = "AUTH_ERROR:" ++ (show_ℕ status ++ (":" ++ message))

-- `parts.slice(2)`
abbrev drop_two : Words → Words
drop_two List.[] = List.[]
drop_two (List.◌∷◌ w List.[]) = List.[]
drop_two (List.◌∷◌ w (List.◌∷◌ v ws)) = ws

-- The message that `load` of the sales shows for an error with this text.
unfoldable pub shown_message : String → String
shown_message text =
    if starts_with text "AUTH_ERROR"
    then text_or (some (join ":" (drop_two (split ":" text)))) "No autorizado"
    else text

Avoids-of_IsDigits : (s : String) → IsDigits s → Avoids ":" s
Avoids-of_IsDigits [] h = tt
Avoids-of_IsDigits (c ∷ s) (d, h) = (omega arith, Avoids-of_IsDigits s h)

abbrev colon : Char
colon = ":"

colon-append : (s : String) → ":" ++ s ≡ (colon ∷ s)
colon-append s = cons-append colon "" s ∙ ap (λ (t : String). colon ∷ t) (nil-append s)

-- For every status and message, colons in the message included, the sales show just the message of
-- an error of authentication, or "No autorizado" if it is empty.
pub shown_message-auth_error :
    (status : ℕ) (message : String)
    → shown_message (auth_error status message) ≡ text_or (some message) "No autorizado"
unfolding shown_message auth_error
shown_message-auth_error status message =
    let rest = show_ℕ status ++ (":" ++ message) in
    let text : String = "AUTH_ERROR:" ++ rest in
    let apart : text ≡ "AUTH_ERROR" ++ (":" ++ rest) = append_assoc "AUTH_ERROR" ":" rest in
    let marked : starts_with text "AUTH_ERROR" ≡ true =
      (starts_with_iff text "AUTH_ERROR").1 (rw apart (prefix-append "AUTH_ERROR" (":" ++ rest))) in
    let words : split ":" text
        ≡ List.◌∷◌ "AUTH_ERROR" (List.◌∷◌ (show_ℕ status) (split ":" message)) =
      rw
        (
          apart,
          colon-append rest,
          split-append ":" "AUTH_ERROR" rest (omega arith),
          colon-append message,
          split-append ":" (show_ℕ status) message
              (Avoids-of_IsDigits (show_ℕ status) (show_ℕ-IsDigits status)),
        )
        refl in
    rw (marked, words, join-split ":" message) refl
