-- ===== src/Prelude/Partial.antt =====
-- Code that may raise, where only the fact matters: `do` over `Option`, with `none` for the
-- exception.
use mathlib.Core.Option.{Option, none, some}

infixl 5 ◌>>=◌
abbrev pub ◌>>=◌ {ℓ κ} : {A : Type ℓ} {B : Type κ} → Option A → (A → Option B) → Option B
none >>= f = none
some a >>= f = f a
