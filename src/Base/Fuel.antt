-- ===== src/Base/Fuel.antt =====
-- Results of code with loops: `none` means that the fuel of a loop ran out.
use mathlib.Core.Option.{Option, none, some}

infixl 5 ◌>>=◌
abbrev pub ◌>>=◌ : {A B : Type 0} → Option A → (A → Option B) → Option B
none >>= f = none
some a >>= f = f a
