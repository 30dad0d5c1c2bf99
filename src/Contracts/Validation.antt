-- ===== src/Contracts/Validation.antt =====
-- `validate_action_bundle` of action_contracts.py: the decoded JSON of a plan becomes a bundle, or is
-- refused. Where in the plan an error stands is left out.
use Prim.Native.Char.{code}
use vrc_agent.Json.{
  Value, null, integer, real, text, array, object, values, fields, in_thousandths, text_length,
  has_key, has_exactly,
}
use vrc_agent.Contracts.{
  Action, say_action, ardy_motion_action, preset_motion_action, ActionBundle, ControlResource,
  resource, resource_eq,
}
use vrc_agent.Prelude.Dict.{Dict, lookup}
use vrc_agent.Prelude.Int.{ℤ, pos, leb_ℤ, pos_part}
use vrc_agent.Prelude.{
  ℕ, suc, ◌==◌, String, string_eq, Bool, true, false, Option, none, some, List, [], ◌∷◌, ◌&&◌, ◌||◌,
  not, is_empty, strip, ltb, leb, nat_beq, length, if◌then◌else◌, Result, ok, err,
}

pub data PlanError : Type 0 where
  not_object invalid_fields not_text empty_text long_text many_sentences not_english not_number
        duration_range not_registered not_array not_one_or_two unsupported_type duplicate_action :
      PlanError

-- `[.!?。！？]`
abbrev is_terminator : ℕ → Bool
is_terminator c =
    nat_beq c 46
    || nat_beq c 33
    || nat_beq c 63
    || nat_beq c 12290
    || nat_beq c 65281
    || nat_beq c 65311

-- The matches of `[.!?。！？]+`, its longest runs; the flag tells whether one is under way.
count_runs : Bool → String → ℕ
count_runs inside String.[] = 0
count_runs inside (String.◌∷◌ c s) =
    let ends = is_terminator (code c) in
    let rest = count_runs ends s in if ends && not inside then suc rest else rest

unfoldable pub sentence_count : String → ℕ
unfolding count_runs
sentence_count s = count_runs false s

-- `str.isascii`
unfoldable pub is_ascii : String → Bool
is_ascii String.[] = true
is_ascii (String.◌∷◌ c s) = ltb (code c) 128 && is_ascii s

-- `any(character.isalpha() …)` of an ASCII text.
unfoldable pub has_letter : String → Bool
has_letter String.[] = false
has_letter (String.◌∷◌ c s) =
    (leb 65 (code c) && leb (code c) 90) || (leb 97 (code c) && leb (code c) 122) || has_letter s

unfoldable pub then_ok :
    {A B : Type 0} → Result PlanError A → (A → Result PlanError B) → Result PlanError B
then_ok (ok a) f = f a
then_ok (err e) f = err e

abbrev pub say_of : String → Result PlanError Action
say_of s =
    if is_empty s
    then err empty_text
    else if ltb 500 (text_length s)
    then err long_text
    else if ltb 2 (sentence_count s)
    then err many_sentences
    else ok (say_action s)

abbrev pub say_from : Option Value → Result PlanError Action
say_from (some (text t)) = say_of (strip t)
say_from _ = err not_text

-- `_validate_say`
unfoldable pub validate_say : Dict String Value → Result PlanError Action
unfolding has_exactly
validate_say raw =
    if has_exactly ("type" ∷ "text" ∷ []) raw
    then say_from (lookup "text" raw)
    else err invalid_fields

-- A duration from 1 to 10 seconds, in milliseconds.
abbrev in_range : ℤ → Result PlanError ℕ
in_range n =
    if leb_ℤ (pos 1000) n && leb_ℤ n (pos 10000) then ok (pos_part n) else err duration_range

unfoldable pub duration_from : Value → Result PlanError ℕ
duration_from (integer n) = in_range (in_thousandths n)
duration_from (real n) = in_range n
duration_from _ = err not_number

abbrev pub motion_of : String → Option Value → Result PlanError Action
motion_of s none = err not_number
motion_of s (some v) =
    if is_empty s
    then err empty_text
    else if ltb 500 (text_length s)
    then err long_text
    else if not (is_ascii s) || not (has_letter s)
    then err not_english
    else then_ok (duration_from v) (λ d. ok (ardy_motion_action s d))

abbrev pub motion_from : Option Value → Option Value → Result PlanError Action
motion_from (some (text t)) duration = motion_of (strip t) duration
motion_from _ duration = err not_text

-- `_validate_ardy_motion`
unfoldable pub validate_ardy_motion : Dict String Value → Result PlanError Action
unfolding has_exactly
validate_ardy_motion raw =
    if has_exactly ("type" ∷ "prompt" ∷ "duration_seconds" ∷ []) raw
    then motion_from (lookup "prompt" raw) (lookup "duration_seconds" raw)
    else err invalid_fields

abbrev preset_in_range : String → Result PlanError ℕ → Result PlanError Action
preset_in_range name (ok d) = ok (preset_motion_action name (some d))
preset_in_range name (err e) = err e

unfoldable pub preset_duration : String → Option Value → Result PlanError Action
preset_duration name none = ok (preset_motion_action name none)
preset_duration name (some null) = err not_number
preset_duration name (some (integer n)) = preset_in_range name (in_range (in_thousandths n))
preset_duration name (some (real n)) = preset_in_range name (in_range n)
preset_duration name (some _) = err duration_range

abbrev preset_keys : Bool → Dict String Value → List String
preset_keys finite raw =
    if not finite && has_key "duration_seconds" raw
    then "type" ∷ "name" ∷ "duration_seconds" ∷ []
    else "type" ∷ "name" ∷ []

unfoldable pub preset_from : Dict String Value → String → Option Bool → Result PlanError Action
unfolding has_exactly preset_duration
preset_from raw name none = err not_registered
preset_from raw name (some finite) =
    if has_exactly (preset_keys finite raw) raw
    then preset_duration name (lookup "duration_seconds" raw)
    else err invalid_fields

unfoldable pub is_seen : ControlResource → List ControlResource → Bool
is_seen r [] = false
is_seen r (q ∷ rest) = r == q || is_seen r rest

module _ (behaviors : String → Option Bool) where
  unfoldable pub preset_named : Dict String Value → Option Value → Result PlanError Action
  unfolding preset_from
  preset_named raw (some (text name)) = preset_from raw name (behaviors name)
  preset_named raw _ = err not_registered

  -- `_validate_preset`; `behaviors` tells for each registered name whether it is finite.
  unfoldable pub validate_preset : Dict String Value → Result PlanError Action
  unfolding preset_named
  validate_preset raw = preset_named raw (lookup "name" raw)

  unfoldable pub by_type : Dict String Value → Option Value → Result PlanError Action
  unfolding validate_say validate_ardy_motion validate_preset
  by_type raw (some (text t)) =
      if t == "say"
      then validate_say raw
      else if t == "ardy_motion"
      then validate_ardy_motion raw
      else if t == "motion"
      then validate_preset raw
      else err unsupported_type
  by_type raw _ = err unsupported_type

  -- One turn of the loop, up to the check of the resource.
  unfoldable pub parse_action : Value → Result PlanError Action
  unfolding by_type
  parse_action (object fs) = by_type (fields fs) (lookup "type" (fields fs))
  parse_action _ = err not_object

  -- The loop over the actions, with the resources of those before.
  unfoldable pub parse_actions : List ControlResource → List Value → Result PlanError (List Action)
  unfolding then_ok parse_action
  parse_actions seen [] = ok []
  parse_actions seen (v ∷ vs) = then_ok (parse_action v) λ a.
      if is_seen (resource a) seen
      then err duplicate_action
      else then_ok (parse_actions (resource a ∷ seen) vs) λ rest. ok (a ∷ rest)

  abbrev pub bundle_of : Option Value → Result PlanError ActionBundle
  bundle_of (some (array vs)) =
      if leb 1 (length (values vs)) && leb (length (values vs)) 2
      then then_ok (parse_actions [] (values vs)) (λ actions. ok (record { actions = actions }))
      else err not_one_or_two
  bundle_of _ = err not_array

  unfoldable pub validate_action_bundle : Value → Result PlanError ActionBundle
  unfolding has_exactly parse_actions then_ok
  validate_action_bundle (object fs) =
      if has_exactly ("actions" ∷ []) (fields fs)
      then bundle_of (lookup "actions" (fields fs))
      else err invalid_fields
  validate_action_bundle _ = err not_object
