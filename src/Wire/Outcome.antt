-- ===== src/Wire/Outcome.antt =====
-- Fallible steps in sequence, without a reader: `if err := f(); err != nil { return err }`.
use mcbenchmark.Prelude.{Option, none, some}
use mcbenchmark.Wire.Reading.{Result, ok, err, Error}

infixl 5 ◌>>=◌
abbrev pub ◌>>=◌ {ℓ κ} : {A : Type ℓ} {B : Type κ} → Result A → (A → Result B) → Result B
ok a >>= f = f a
err e >>= f = err e

abbrev pub or_fail {ℓ} : {A : Type ℓ} → Option A → Error → Result A
or_fail none e = err e
or_fail (some a) e = ok a
