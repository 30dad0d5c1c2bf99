-- ===== src/Json.antt =====
-- JSON values as Python's `json` gives them, and the dicts that objects become.
use vrc_agent.Prelude.Dict.{Dict, lookup}
use vrc_agent.Prelude.Int.{ℤ, pos, negsuc}
use vrc_agent.Prelude.{
  ℕ, suc, ◌+◌, ◌*◌, ◌==◌, String, string_eq, Bool, true, false, List, [], ◌∷◌, ◌&&◌, ◌||◌, not,
  is_none,
}

-- A `real` is a float, in thousandths.
mutual
  pub data Value : Type 0 where
    null : Value
    boolean : Bool → Value
    integer : ℤ → Value
    real : ℤ → Value
    text : String → Value
    array : Values → Value
    object : Fields → Value

  pub data Values : Type 0 where
    no_values : Values
    value : Value → Values → Values

  pub data Fields : Type 0 where
    no_fields : Fields
    field : String → Value → Fields → Fields

abbrev pub values : Values → List Value
values no_values = []
values (value v vs) = v ∷ values vs

abbrev pub fields : Fields → Dict String Value
fields no_fields = []
fields (field k v rest) = (k, v) ∷ fields rest

abbrev pub in_thousandths : ℤ → ℤ
in_thousandths (pos n) = pos (1000 * n)
in_thousandths (negsuc n) = negsuc (1000 * n + 999)

-- `str.__len__`
unfoldable pub text_length : String → ℕ
text_length String.[] = 0
text_length (String.◌∷◌ c s) = suc (text_length s)

abbrev pub has_key : String → Dict String Value → Bool
has_key k raw = not (is_none (lookup k raw))

has_all : List String → Dict String Value → Bool
has_all [] raw = true
has_all (k ∷ ks) raw = has_key k raw && has_all ks raw

is_one_of : String → List String → Bool
is_one_of k [] = false
is_one_of k (e ∷ es) = k == e || is_one_of k es

has_only : List String → Dict String Value → Bool
unfolding is_one_of
has_only ks [] = true
has_only ks ((k, v) ∷ raw) = is_one_of k ks && has_only ks raw

-- `set(raw) == set(ks)`
unfoldable pub has_exactly : List String → Dict String Value → Bool
unfolding has_all has_only
has_exactly ks raw = has_all ks raw && has_only ks raw
