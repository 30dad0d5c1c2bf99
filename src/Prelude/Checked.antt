-- ===== src/Prelude/Checked.antt =====
-- Chains of checks that refuse: `do` blocks over `Result`, with no state.
use mathlib.Core.Path.{◌≡◌, refl}
use vrc_agent.Prelude.Monad.{Result, ok, err}

infixl 5 ◌>>=◌ ◌>>◌
abbrev pub ◌>>=◌ : {E A B : Type 0} → Result E A → (A → Result E B) → Result E B
r >>= f = elim r [ ok a ↦ f a | err e ↦ err e ]

abbrev pub ◌>>◌ : {E A B : Type 0} → Result E A → Result E B → Result E B
r >> k = r >>= λ _. k

-- A chain that returns went through its first check.
pub bind-ok :
    {E A B : Type 0} (r : Result E A) (f : A → Result E B) (b : B)
    → (r >>= f) ≡ ok b
    → (a : A) × (r ≡ ok a) × (f a ≡ ok b)
bind-ok (ok a) f b h = (a, refl, h)
bind-ok (err e) f b h = cc
