-- ===== src/Prelude/Lists.antt =====
-- Lists measured by native numbers, and Python's `deque(maxlen=n)`.
use Prim.Native.Nat.{ℕ, zero, suc, ◌+◌, ◌-◌, ◌≤◌, ◌<◌, min}
use mathlib.Core.Path.{◌≡◌}
use mathlib.Core.List.{List, [], ◌∷◌, ◌++◌}
use mathlib.Core.Option.{Option, none, some}
use native.Mathlib.Omega.{arith}

module _ {ℓ} {A : Type ℓ} where
  abbrev pub length : List A → ℕ
  length [] = 0
  length (x ∷ xs) = suc (length xs)

  abbrev pub get_elem? : List A → ℕ → Option A
  get_elem? [] i = none
  get_elem? (x ∷ xs) zero = some x
  get_elem? (x ∷ xs) (suc i) = get_elem? xs i

  abbrev pub drop : ℕ → List A → List A
  drop zero xs = xs
  drop (suc n) [] = []
  drop (suc n) (x ∷ xs) = drop n xs

  pub length-append : (xs ys : List A) → length (xs ++ ys) ≡ length xs + length ys
  length-append [] ys = omega arith
  length-append (x ∷ xs) ys = omega (arith, length-append xs ys)

  pub length-drop : (n : ℕ) (xs : List A) → length (drop n xs) ≡ length xs - n
  length-drop zero xs = omega arith
  length-drop (suc n) [] = omega arith
  length-drop (suc n) (x ∷ xs) = omega (arith, length-drop n xs)

module _ {ℓ} {A : Type ℓ} where
  -- What a deque of `maxlen` n keeps of a sequence: its last n entries.
  pub keep_last : ℕ → List A → List A
  keep_last n xs = drop (length xs - n) xs

  -- `append` on a deque of `maxlen` n.
  pub append_bounded : ℕ → List A → A → List A
  append_bounded n xs x = keep_last n (xs ++ x ∷ [])

  pub length-keep_last : (n : ℕ) (xs : List A) → length (keep_last n xs) ≡ min n (length xs)
  unfolding keep_last
  length-keep_last n xs = omega (arith, length-drop (length xs - n) xs)

  pub length-append_bounded-le : (n : ℕ) (xs : List A) (x : A) → length (append_bounded n xs x) ≤ n
  unfolding append_bounded
  length-append_bounded-le n xs x = omega (arith, length-keep_last n (xs ++ x ∷ []))

-- A predicate of every entry; it computes to a tuple.
abbrev pub All {ℓ κ} : {A : Type ℓ} → (A → Type κ) → List A → Type κ
All P [] = Unit
All P (x ∷ xs) = P x × All P xs

module _ {ℓ κ} {A : Type ℓ} (P : A → Type κ) where
  pub All-append : (xs ys : List A) → All P xs → All P ys → All P (xs ++ ys)
  All-append [] ys hx hy = hy
  All-append (x ∷ xs) ys hx hy = (hx.0, All-append xs ys hx.1 hy)

  All-drop : (n : ℕ) (xs : List A) → All P xs → All P (drop n xs)
  All-drop zero xs h = h
  All-drop (suc n) [] h = h
  All-drop (suc n) (x ∷ xs) h = All-drop n xs h.1

  pub All-keep_last : (n : ℕ) (xs : List A) → All P xs → All P (keep_last n xs)
  unfolding keep_last
  All-keep_last n xs h = All-drop (length xs - n) xs h

  pub All-append_bounded :
      (n : ℕ) (xs : List A) (x : A) → All P xs → P x → All P (append_bounded n xs x)
  unfolding append_bounded
  All-append_bounded n xs x h p = All-keep_last n (xs ++ x ∷ []) (All-append xs (x ∷ []) h (p, tt))

pub All-mono {ℓ κ} :
    {A : Type ℓ} (P Q : A → Type κ) (xs : List A) → ((x : A) → P x → Q x) → All P xs → All Q xs
All-mono P Q [] f h = tt
All-mono P Q (x ∷ xs) f h = (f x h.0, All-mono P Q xs f h.1)

-- Bytes, as numbers.
abbrev pub AllBytes : List ℕ → Type 0
AllBytes = All (λ b. b < 256)
