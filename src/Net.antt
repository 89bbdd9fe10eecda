-- ===== src/Net.antt =====
-- What a request of front/src comes to, as the code that sends it can tell.
use go_moda_mayor.Prelude.{ℕ, Option, String, concat, get_or, [], ◌∷◌}

-- A `fetch` that rejects, with the error's message; an answer that is not `ok`, with its status and
-- the `error` of its body, if the body is JSON and has one; an answer that is `ok` but that the code
-- fails to read, with the error's message; and the JSON of an answer that is `ok`.
pub data Reply (A : Type 0) : Type 0 where
  failed : String → Reply A
  refused : ℕ → Option String → Reply A
  garbled : String → Reply A
  accepted : A → Reply A

-- The same for a request whose `ok` answer is not read.
pub data Ack : Type 0 where
  failed : String → Ack
  refused : ℕ → Option String → Ack
  acked : Ack

-- `Bearer ${token}`, where a missing token reads as "null".
abbrev pub bearer : Option String → String
bearer token = concat ("Bearer " ∷ get_or token "null" ∷ [])
