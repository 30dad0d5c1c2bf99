-- ===== src/Prelude/Monad.antt =====
-- Methods of an object that may raise: what was written before a raise stays written, so the new
-- state comes back beside the error too.
use mathlib.Core.Option.{Option, none, some}
use mathlib.Core.Bool.{Bool}
use vrc_agent.Prelude.Tests.{if◌then◌else◌}

pub data Result {ℓ κ} (E : Type ℓ) (A : Type κ) : Type (ℓ ⊔ κ) where
  ok : A → Result E A
  err : E → Result E A

abbrev pub Method : Type 0 → Type 0 → Type 0 → Type 0
Method S E A = S → Result E A × S

module _ {S E A : Type 0} where
  abbrev pub pure : A → Method S E A
  pure a s = (ok a, s)

  abbrev pub raise : E → Method S E A
  raise e s = (err e, s)

infixl 5 ◌>>=◌ ◌>>◌
abbrev pub ◌>>=◌ : {S E A B : Type 0} → Method S E A → (A → Method S E B) → Method S E B
◌>>=◌ m f s = let (r, s') = m s in elim r [ ok a ↦ f a s' | err e ↦ raise e s' ]

abbrev pub ◌>>◌ : {S E A B : Type 0} → Method S E A → Method S E B → Method S E B
m >> k = m >>= λ _. k

module _ {S E : Type 0} where
  abbrev pub raise_if : Bool → E → Method S E (Unit {0})
  raise_if c e s = (if c then err e else ok tt, s)

  -- A check that raises what it found.
  abbrev pub raise_some : Option E → Method S E (Unit {0})
  raise_some none s = (ok tt, s)
  raise_some (some e) s = (err e, s)

  abbrev pub modify : (S → S) → Method S E (Unit {0})
  modify f s = (ok tt, f s)

  abbrev pub gets : {A : Type 0} → (S → A) → Method S E A
  gets f s = (ok (f s), s)

-- Whether a method returned.
abbrev pub returned : {E A : Type 0} → Result E A → Bool
returned (ok a) = Bool.true
returned (err e) = Bool.false
