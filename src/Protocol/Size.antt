-- ===== src/Protocol/Size.antt =====
-- How many bytes `json.dumps` with `ensure_ascii=False` and compact separators gives in UTF-8.
use vrc_agent.Json.{
  Value, null, boolean, integer, real, text, array, object, Values, no_values, value, Fields,
  no_fields, field,
}
use vrc_agent.Prelude.Int.{ℤ, pos, negsuc}
use vrc_agent.Prelude.{
  ℕ, zero, suc, ◌+◌, ◌/◌, ◌%◌, String, ◌≡◌, refl, Bool, true, false, ◌||◌, nat_eq, string_eq, ◌==◌,
  ltb, if◌then◌else◌,
}
use Prim.Native.Char.{code, len_utf8}

-- A character of a text: escaped by a letter, by `\u` and four digits, or as it is.
abbrev char_size : ℕ → ℕ → ℕ
char_size n width =
    if n == 34 || n == 92 || n == 8 || n == 9 || n == 10 || n == 12 || n == 13
    then 2
    else if ltb n 32
    then 6
    else width

inner_size : String → ℕ
inner_size String.[] = 0
inner_size (String.◌∷◌ c s) = char_size (code c) (len_utf8 c) + inner_size s

pub text_size : String → ℕ
unfolding inner_size
text_size s = inner_size s + 2

-- The decimal digits of a number; the fuel is the number itself, and there are no more digits than that.
digits_within : ℕ → ℕ → ℕ
digits_within zero n = 1
digits_within (suc fuel) n = elim (ltb n 10) [ true ↦ 1 | false ↦ 1 + digits_within fuel (n / 10) ]

pub digits : ℕ → ℕ
unfolding digits_within
digits n = digits_within n n

integer_size : ℤ → ℕ
unfolding digits
integer_size (pos n) = digits n
integer_size (negsuc n) = 1 + digits (n + 1)

-- The digits behind the point.
abbrev fraction_size : ℕ → ℕ
fraction_size n = if n % 100 == 0 then 1 else if n % 10 == 0 then 2 else 3

real_size : ℤ → ℕ
unfolding digits
real_size (pos n) = digits (n / 1000) + 1 + fraction_size n
real_size (negsuc n) = 1 + digits ((n + 1) / 1000) + 1 + fraction_size (n + 1)

abbrev boolean_size : Bool → ℕ
boolean_size true = 4
boolean_size false = 5

unfoldable mutual
  unfolding text_size integer_size real_size

  pub dumped_size : Value → ℕ
  dumped_size null = 4
  dumped_size (boolean b) = boolean_size b
  dumped_size (integer n) = integer_size n
  dumped_size (real n) = real_size n
  dumped_size (text t) = text_size t
  dumped_size (array no_values) = 2
  dumped_size (array (value v vs)) = 1 + values_size (value v vs)
  dumped_size (object no_fields) = 2
  dumped_size (object (field k v rest)) = 1 + fields_size (field k v rest)

  -- Each with the comma or the bracket behind it.
  values_size : Values → ℕ
  values_size no_values = 0
  values_size (value v vs) = dumped_size v + 1 + values_size vs

  fields_size : Fields → ℕ
  fields_size no_fields = 0
  fields_size (field k v rest) = text_size k + 1 + dumped_size v + 1 + fields_size rest

-- {"a":[1,-2],"b":2.5}
small_object :
    dumped_size (
      object (
        field "a"
          (array (value (integer (pos 1)) (value (integer (negsuc 1)) no_values)))
          (field "b" (real (pos 2500)) no_fields)))
    ≡ 20
unfolding dumped_size
small_object = refl
