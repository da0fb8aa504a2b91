-- ===== src/Prelude/Maybe.antt =====
-- `do` blocks over `Option`; a module that uses them imports these in place of those of `Errors`.
use mathlib.Core.Option.{Option, none, some}

infixl 5 ◌>>=◌
abbrev pub ◌>>=◌ {ℓ κ} : {A : Type ℓ} {B : Type κ} → Option A → (A → Option B) → Option B
none >>= f = none
some a >>= f = f a
