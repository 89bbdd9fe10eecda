-- ===== src/NewProduct/Variants/Confirm.antt =====
-- The variants that front/src/app/admin/productos/nuevo/page.tsx posts one by one.
use go_moda_mayor.Net.{Reply, failed, refused, garbled, accepted}
use go_moda_mayor.Prelude.{
  ℕ, zero, suc, ◌+◌, ◌<◌, Bool, map, take, ◌≡◌, true, false, ◌⊎◌, none, some, List, ◌++◌, String,
  length, is_some,
}
use go_moda_mayor.NewProduct.Variants.{NewVariant, MadeVariant, Maker, Progress}

abbrev pub is_accepted : Reply MadeVariant → Bool
is_accepted (failed m) = false
is_accepted (refused status e) = false
is_accepted (garbled m) = false
is_accepted (accepted m) = true

-- The `n` answers from number `i` on are accepted.
abbrev pub Accepted : (ℕ → Reply MadeVariant) → ℕ → ℕ → Type 0
Accepted replies i zero = Unit
Accepted replies i (suc n) = (is_accepted (replies i) ≡ true) × Accepted replies (suc i) n

abbrev pub keys : List MadeVariant → List String
keys made = map (λ m. m.color_key) made

-- The loop has posted them all, and all were accepted; or the first `k + 1` of them, of which only the
-- last was not.
abbrev IsCreated : (ℕ → Reply MadeVariant) → ℕ → List NewVariant → Progress → Type 0
IsCreated replies i vs (made, sent, none) =
    (sent ≡ vs) × (keys made ≡ map (λ v. v.color_key) vs) × Accepted replies i (length vs)
IsCreated replies i vs (made, sent, some m) =
    (k : ℕ) × (k < length vs)
    × (sent ≡ take (suc k) vs)
    × Accepted replies i k
    × (is_accepted (replies (i + k)) ≡ false)

module _ (replies : ℕ → Reply MadeVariant) where
  -- All posts are accepted, and their variants are shown in the third step; or number `k` is the first
  -- that is not.
  abbrev pub IsConfirmed : List NewVariant → Maker → Maker → Type 0
  IsConfirmed vs s t =
      (Accepted replies 0 (length vs)
        × (t.posted ≡ s.posted ++ vs)
        × (keys t.variants ≡ map (λ v. v.color_key) vs)
        × (t.step ≡ 3)
        × (t.error ≡ s.error))
      ⊎ ((k : ℕ) × (k < length vs)
          × Accepted replies 0 k
          × (is_accepted (replies k) ≡ false)
          × (t.posted ≡ s.posted ++ take (suc k) vs)
          × (t.variants ≡ s.variants)
          × (t.step ≡ s.step)
          × (is_some t.error ≡ true))
