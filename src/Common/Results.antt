-- ===== src/Common/Results.antt =====
-- The pair `(T, error)` that a Go function returns, with one of the two set.
use mathlib.Core.Option.{Option, none, some}

pub data Fallible {ℓ κ} (E : Type ℓ) (A : Type κ) : Type (ℓ ⊔ κ) where
  ok : A → Fallible E A
  err : E → Fallible E A

-- `if err := check; err != nil { return err }; return value`
abbrev pub unless {ℓ κ} : {E : Type ℓ} {A : Type κ} → Option E → A → Fallible E A
unless none a = ok a
unless (some e) a = err e

abbrev pub map_option {ℓ κ} : {A : Type ℓ} {B : Type κ} → (A → B) → Option A → Option B
map_option f none = none
map_option f (some a) = some (f a)
