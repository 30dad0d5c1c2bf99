-- ===== src/Prelude/Strip.antt =====
-- Python's `str.strip()`.
use Prim.Native.Nat.{ℕ}
use Prim.Native.Char.{code}
use Prim.Native.String.{String}
use mathlib.Core.Logic.{inl, inr}
use mathlib.Core.Bool.{false, Bool, ◌&&◌, ◌||◌}
use mathlib.Core.Path.{◌≡◌, refl, sym, subst, ap, ◌∙◌}
use vrc_agent.Prelude.Tests.{Bool-cases, if◌then◌else◌, leb, nat_beq}

-- The code points of Python's `str.isspace`.
pub is_space : ℕ → Bool
is_space c =
    (leb 9 c && leb c 13)
    || (leb 28 c && leb c 32)
    || nat_beq c 133
    || nat_beq c 160
    || nat_beq c 5760
    || (leb 8192 c && leb c 8202)
    || nat_beq c 8232
    || nat_beq c 8233
    || nat_beq c 8239
    || nat_beq c 8287
    || nat_beq c 12288

lstrip : String → String
lstrip String.[] = String.[]
lstrip (String.◌∷◌ c s) = if is_space (code c) then lstrip s else String.◌∷◌ c s

-- The text back to front, before what has been read so far.
flip_onto : String → String → String
flip_onto acc String.[] = acc
flip_onto acc (String.◌∷◌ c s) = flip_onto (String.◌∷◌ c acc) s

unfoldable pub strip : String → String
unfolding lstrip flip_onto is_space
strip s = flip_onto String.[] (lstrip (flip_onto String.[] (lstrip s)))

strip_ends : strip "  a b\n" ≡ "a b"
unfolding strip
strip_ends = refl

-- No space at the front.
IsBare : String → Type 0
IsBare String.[] = Unit
IsBare (String.◌∷◌ c s) = is_space (code c) ≡ false

lstrip-IsBare : (s : String) → IsBare (lstrip s)
unfolding lstrip IsBare
lstrip-IsBare String.[] = tt
lstrip-IsBare (String.◌∷◌ c s) = elim (Bool-cases (is_space (code c))) [
  | inl space ↦ rw space (lstrip-IsBare s)
  | inr other ↦ rw other other
]

bare-lstrip : (s : String) → IsBare s → lstrip s ≡ s
unfolding lstrip IsBare
bare-lstrip String.[] h = refl
bare-lstrip (String.◌∷◌ c s) h = rw h refl

cat : String → String → String
cat String.[] t = t
cat (String.◌∷◌ c s) t = String.◌∷◌ c (cat s t)

cat-nil : (s : String) → cat s String.[] ≡ s
unfolding cat
cat-nil String.[] = refl
cat-nil (String.◌∷◌ c s) = ap (String.◌∷◌ c) (cat-nil s)

flip-flip : (s acc back : String) → flip_onto back (flip_onto acc s) ≡ flip_onto (cat s back) acc
unfolding flip_onto cat
flip-flip String.[] acc back = refl
flip-flip (String.◌∷◌ c s) acc back = flip-flip s (String.◌∷◌ c acc) back

flip_twice : (s : String) → flip_onto String.[] (flip_onto String.[] s) ≡ s
unfolding flip_onto
flip_twice s = flip-flip s String.[] String.[] ∙ cat-nil s

flip-cat : (v a acc : String) → flip_onto (cat a acc) v ≡ cat (flip_onto a v) acc
unfolding flip_onto cat
flip-cat String.[] a acc = refl
flip-cat (String.◌∷◌ c v) a acc = flip-cat v (String.◌∷◌ c a) acc

-- What `lstrip` keeps is a tail, so back to front it is a head.
flip-lstrip :
    (s acc : String)
    → (tail : String) × (flip_onto acc s ≡ cat (flip_onto String.[] (lstrip s)) tail)
unfolding lstrip flip_onto cat
flip-lstrip String.[] acc = (acc, flip-cat String.[] String.[] acc)
flip-lstrip (String.◌∷◌ c s) acc = elim (Bool-cases (is_space (code c))) [
  | inl space ↦ rw space (flip-lstrip s (String.◌∷◌ c acc))
  | inr other ↦ rw other (acc, flip-cat (String.◌∷◌ c s) String.[] acc)
]

cat-IsBare : (s t : String) → IsBare (cat s t) → IsBare s
unfolding cat IsBare
cat-IsBare String.[] t h = tt
cat-IsBare (String.◌∷◌ c s) t h = h

-- `strip` of a stripped text is that text.
pub strip-strip : (s : String) → strip (strip s) ≡ strip s
unfolding strip
strip-strip s =
    let t = lstrip s in
    let v = lstrip (flip_onto String.[] t) in
    let (tail, e) = flip-lstrip (flip_onto String.[] t) String.[] in
    let bare : IsBare (flip_onto String.[] v) =
      cat-IsBare (flip_onto String.[] v) tail
        (subst IsBare (sym (flip_twice t) ∙ e) (lstrip-IsBare s)) in
    ap (λ x. flip_onto String.[] (lstrip (flip_onto String.[] x)))
      (bare-lstrip (flip_onto String.[] v) bare)
    ∙ ap (λ x. flip_onto String.[] (lstrip x)) (flip_twice v)
    ∙ ap (flip_onto String.[]) (bare-lstrip v (lstrip-IsBare (flip_onto String.[] t)))
