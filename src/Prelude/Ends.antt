-- ===== src/Prelude/Ends.antt =====
-- How a method ends: with one property of its result and state when it returns, another when it
-- raises.
use vrc_agent.Prelude.{raise_some, none, some, Option}
use mathlib.Core.Path.{◌≡◌, refl}
use mathlib.Core.Bool.{false, Bool, true}
use vrc_agent.Prelude.Monad.{Result, ok, err, Method, ◌>>=◌, raise_if, returned}

abbrev pub Ends : {S E A : Type 0} → (A → S → Type 0) → (E → S → Type 0) → Result E A × S → Type 0
Ends Q R (ok a, s) = Q a s
Ends Q R (err e, s) = R e s

-- A method that must not raise.
abbrev pub Never : {S E : Type 0} → E → S → Type 0
Never e s = ⊥

module _ {S E A : Type 0} where
  Ends-result :
      (Q : S → Type 0) (R : E → S → Type 0) (r : Result E A) (s : S)
      → returned r ≡ true
      → Q s
      → Ends (λ _. Q) R (r, s)
  Ends-result Q R (ok a) s h q = q
  Ends-result Q R (err e) s h q = cc

  -- A method that returns ends well, whatever is asked of a raise.
  pub Ends-returned :
      (Q : S → Type 0) (R : E → S → Type 0) (out : Result E A × S)
      → returned out.0 ≡ true
      → Q out.1
      → Ends (λ _. Q) R out
  Ends-returned Q R (r, s) h q = Ends-result Q R r s h q

module _ {S E A B : Type 0} (P : A → S → Type 0) (Q : B → S → Type 0) (R : E → S → Type 0) where
  continue-Ends :
      (f : A → Method S E B) (r : Result E A) (s : S)
      → Ends P R (r, s)
      → ((a : A) (s' : S) → P a s' → Ends Q R (f a s'))
      → Ends Q R (((λ _. (r, s)) >>= f) s)
  continue-Ends f (ok a) s h k = k a s h
  continue-Ends f (err e) s h k = h

  pub Ends-bind :
      (m : Method S E A) (f : A → Method S E B) (s : S)
      → Ends P R (m s)
      → ((a : A) (s' : S) → P a s' → Ends Q R (f a s'))
      → Ends Q R ((m >>= f) s)
  Ends-bind m f s h k = let (r, s') = m s in continue-Ends f r s' h k

module _ {S E A : Type 0} (Q : A → S → Type 0) (R : E → S → Type 0) where
  -- A guard ends the method by its error, or is passed.
  pub Ends-guard :
      (c : Bool) (e : E) (f : Unit {0} → Method S E A) (s : S)
      → (c ≡ true → R e s)
      → (c ≡ false → Ends Q R (f tt s))
      → Ends Q R ((raise_if c e >>= f) s)
  Ends-guard true e f s h k = h refl
  Ends-guard false e f s h k = k refl

  -- So does a check that may have found an error.
  pub Ends-check :
      (o : Option E) (f : Unit {0} → Method S E A) (s : S)
      → ((e : E) → o ≡ some e → R e s)
      → Ends Q R (f tt s)
      → Ends Q R ((raise_some o >>= f) s)
  Ends-check none f s h k = k
  Ends-check (some e) f s h k = h e refl

module _ {S E A : Type 0} (P Q : A → S → Type 0) (R : E → S → Type 0) where
  -- A weaker claim of what is returned.
  pub Ends-map :
      (out : Result E A × S) → Ends P R out → ((a : A) (s : S) → P a s → Q a s) → Ends Q R out
  Ends-map (ok a, s) h k = k a s h
  Ends-map (err e, s) h k = h

-- What holds of the state however the method ends.
pub Ends-state :
    {S E A : Type 0} (P : A → S → Type 0) (R : E → S → Type 0) (Q : S → Type 0)
    (out : Result E A × S)
    → Ends P R out
    → ((a : A) (s : S) → P a s → Q s)
    → ((e : E) (s : S) → R e s → Q s)
    → Q out.1
Ends-state P R Q (ok a, s) h k l = k a s h
Ends-state P R Q (err e, s) h k l = l e s h
