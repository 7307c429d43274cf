-- ===== src/Base/Outcome.antt =====
-- Rust's `Result`, with its error type first, and `?` as the bind of a do block.
pub data Outcome {ℓ κ} (E : Type ℓ) (A : Type κ) : Type (ℓ ⊔ κ) where
  ok : A → Outcome E A
  err : E → Outcome E A

infixl 5 ◌>>=◌
abbrev pub ◌>>=◌ {ℓ κ μ} :
    {E : Type ℓ} {A : Type κ} {B : Type μ} → Outcome E A → (A → Outcome E B) → Outcome E B
ok a >>= f = f a
err e >>= f = err e

-- The question mark on a call that may change the state `W`.
unfoldable pub and_then {ℓ} :
    {E A B W : Type ℓ} → Outcome E A × W → (A → W → Outcome E B × W) → Outcome E B × W
and_then (ok a, w) next = next a w
and_then (err e, w) next = (err e, w)
