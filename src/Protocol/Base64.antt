-- ===== src/Protocol/Base64.antt =====
-- Base64 as Python's `base64` writes it and reads it with `validate=True`: whole groups of four, the
-- last padded.
use vrc_agent.Prelude.Lists.{AllBytes}
use vrc_agent.Prelude.{
  zero, refl, ◌==◌, nat_eq, ◌%◌, ◌+◌, not, ◌-◌, none, arith, leb, ◌*◌, ◌&&◌, [], ◌/◌, if◌then◌else◌,
  false, suc, ◌∷◌, is_value, ◌<◌, some, String, true, ℕ, nat_beq, Option, ◌≡◌, List, Bool,
}
use Prim.Native.Char.{Char, code}

abbrev alphabet : String
alphabet = "ABCDEFGHIJKLMNOPQRSTUVWXYZabcdefghijklmnopqrstuvwxyz0123456789+/"

-- The character at an index; past the end, the padding.
char_at : ℕ → String → Char
char_at n String.[] = Prim.Native.Char.char 61 tt
char_at zero (String.◌∷◌ c s) = c
char_at (suc n) (String.◌∷◌ c s) = char_at n s

letter : ℕ → Char
unfolding char_at
letter n = char_at n alphabet

abbrev pad : Char
pad = Prim.Native.Char.char 61 tt

abbrev is_pad : Char → Bool
is_pad c = nat_beq (code c) 61

-- The value of a letter.
sextet : Char → Option ℕ
sextet c =
    let n = code c in
    if leb 65 n && leb n 90
    then some (n - 65)
    else if leb 97 n && leb n 122
    then some (n - 71)
    else if leb 48 n && leb n 57
    then some (n + 4)
    else if n == 43
    then some 62
    else if n == 47
    then some 63
    else none

abbrev four : Char → Char → Char → Char → String → String
four a b c d s = String.◌∷◌ a (String.◌∷◌ b (String.◌∷◌ c (String.◌∷◌ d s)))

unfoldable pub b64encode : List ℕ → String
unfolding letter
b64encode [] = String.[]
b64encode (a ∷ []) = four (letter (a / 4)) (letter (a % 4 * 16)) pad pad String.[]
b64encode (a ∷ b ∷ []) =
    four (letter (a / 4)) (letter (a % 4 * 16 + b / 16)) (letter (b % 16 * 4)) pad String.[]
b64encode (a ∷ b ∷ c ∷ rest) =
    four (letter (a / 4)) (letter (a % 4 * 16 + b / 16)) (letter (b % 16 * 4 + c / 64))
      (letter (c % 64)) (b64encode rest)

abbrev one_byte : Option ℕ → Option ℕ → Option (List ℕ)
one_byte (some a) (some b) = some ((a * 4 + b / 16) ∷ [])
one_byte _ _ = none

abbrev two_bytes : Option ℕ → Option ℕ → Option ℕ → Option (List ℕ)
two_bytes (some a) (some b) (some c) = some ((a * 4 + b / 16) ∷ (b % 16 * 16 + c / 4) ∷ [])
two_bytes _ _ _ = none

abbrev three_bytes : Option ℕ → Option ℕ → Option ℕ → Option ℕ → Option (List ℕ) → Option (List ℕ)
three_bytes (some a) (some b) (some c) (some d) (some rest) =
    some ((a * 4 + b / 16) ∷ (b % 16 * 16 + c / 4) ∷ (c % 4 * 64 + d) ∷ rest)
three_bytes _ _ _ _ _ = none

-- A group, and what the text behind it gives.
group : Char → Char → Char → Char → Bool → Option (List ℕ) → Option (List ℕ)
unfolding sextet
group c1 c2 c3 c4 final rest =
    if final && is_pad c3 && is_pad c4
    then one_byte (sextet c1) (sextet c2)
    else if final && is_pad c4
    then two_bytes (sextet c1) (sextet c2) (sextet c3)
    else three_bytes (sextet c1) (sextet c2) (sextet c3) (sextet c4) rest

abbrev is_end : String → Bool
is_end String.[] = true
is_end (String.◌∷◌ c s) = false

unfoldable pub b64decode : String → Option (List ℕ)
unfolding group
b64decode String.[] = some []
b64decode (String.◌∷◌ c1 (String.◌∷◌ c2 (String.◌∷◌ c3 (String.◌∷◌ c4 rest)))) =
    group c1 c2 c3 c4 (is_end rest) (b64decode rest)
b64decode _ = none

-- Every letter is read as its value, and is no padding.
abbrev reads_back : ℕ → Bool
reads_back n = is_value n (sextet (letter n)) && not (is_pad (letter n))

-- A test of every number below a bound.
holds_below : ℕ → (ℕ → Bool) → Bool
holds_below zero test = true
holds_below (suc n) test = test n && holds_below n test

holds_below-at :
    (n : ℕ) (test : ℕ → Bool) (i : ℕ) → holds_below n test ≡ true → i < n → test i ≡ true
unfolding holds_below
holds_below-at zero test i h lt = absurd (omega arith)
holds_below-at (suc n) test i h lt = ground (arith, holds_below-at n test i)

letters_table : holds_below 64 reads_back ≡ true
unfolding holds_below sextet letter
letters_table = refl

letter-sextet : (i : ℕ) → i < 64 → (sextet (letter i) ≡ some i) × (is_pad (letter i) ≡ false)
letter-sextet i lt = ground (arith, holds_below-at 64 reads_back i letters_table lt)

pub decode-encode : (bytes : List ℕ) → AllBytes bytes → b64decode (b64encode bytes) ≡ some bytes
unfolding b64decode b64encode group
decode-encode [] h = refl
decode-encode (a ∷ []) h =
    ground (arith, letter-sextet (a / 4) (omega arith), letter-sextet (a % 4 * 16) (omega arith))
decode-encode (a ∷ b ∷ []) h = ground (
  arith,
  letter-sextet (a / 4) (omega arith),
  letter-sextet (a % 4 * 16 + b / 16) (omega arith),
  letter-sextet (b % 16 * 4) (omega arith),
)
decode-encode (a ∷ b ∷ c ∷ rest) h = ground (
  arith,
  letter-sextet (a / 4) (omega (arith, h.0)),
  letter-sextet (a % 4 * 16 + b / 16) (omega (arith, h.1.0)),
  letter-sextet (b % 16 * 4 + c / 64) (omega (arith, h.1.1.0)),
  letter-sextet (c % 64) (omega arith),
  decode-encode rest h.1.1.1,
)
