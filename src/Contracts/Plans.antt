-- ===== src/Contracts/Plans.antt =====
-- What `validate_action_bundle` of action_contracts.py lets through.
use vrc_agent.Contracts.{
  Action, say_action, ardy_motion_action, preset_motion_action, ActionBundle, ControlResource,
  resource, resource_eq,
}
use vrc_agent.Json.{Value, text, array, object, text_length, values, fields}
use vrc_agent.Contracts.Validation.{
  PlanError, then_ok, say_of, say_from, validate_say, duration_from, motion_of, motion_from,
  validate_ardy_motion, preset_duration, preset_from, preset_named, validate_preset, by_type,
  parse_action, parse_actions, is_seen, bundle_of, validate_action_bundle, sentence_count, is_ascii,
  has_letter,
}
use vrc_agent.Prelude.Dict.{Dict, lookup}
use vrc_agent.Prelude.{
  leb, ◌&&◌, if◌then◌else◌, Bool-cases, inl, inr, All, arith, ℕ, ◌≤◌, ◌≡◌, ◌≢◌, refl, String, Bool,
  true, false, Option, none, some, List, [], ◌∷◌, length, Result, ok, err, eq_iff, strip, string_eq,
}

-- An action that the executors may be given.
abbrev pub IsPlayable : Action → Type 0
IsPlayable (say_action s) = (s ≢ "") × (text_length s ≤ 500) × (sentence_count s ≤ 2)
IsPlayable (ardy_motion_action s d) =
    (s ≢ "")
    × (text_length s ≤ 500)
    × (is_ascii s ≡ true)
    × (has_letter s ≡ true)
    × (1000 ≤ d)
    × (d ≤ 10000)
IsPlayable (preset_motion_action name none) = Unit
IsPlayable (preset_motion_action name (some d)) = (1000 ≤ d) × (d ≤ 10000)

-- The predicate of what a result returns.
abbrev pub Gives : {A : Type 0} → (A → Type 0) → Result PlanError A → Type 0
Gives P (ok a) = P a
Gives P (err e) = Unit

then_ok-Gives :
    {A B : Type 0} (P : A → Type 0) (Q : B → Type 0) (r : Result PlanError A)
    (f : A → Result PlanError B)
    → Gives P r
    → ((a : A) → P a → Gives Q (f a))
    → Gives Q (then_ok r f)
unfolding then_ok
then_ok-Gives P Q (ok a) f h k = k a h
then_ok-Gives P Q (err e) f h k = tt

duration_from-Gives : (v : Value) → Gives (λ d. (1000 ≤ d) × (d ≤ 10000)) (duration_from v)
unfolding duration_from
duration_from-Gives v = ground arith

say_of-Gives : (s : String) → Gives IsPlayable (say_of s)
say_of-Gives s = ground (arith, eq_iff s "")

motion_of-Gives : (s : String) (o : Option Value) → Gives IsPlayable (motion_of s o)
unfolding duration_from then_ok
motion_of-Gives s none = tt
motion_of-Gives s (some v) = ground (arith, eq_iff s "", duration_from-Gives v)

preset_duration-Gives :
    (name : String) (o : Option Value) → Gives IsPlayable (preset_duration name o)
unfolding preset_duration
preset_duration-Gives name o = ground arith

-- A check that may refuse before.
guard-Gives :
    {A : Type 0} (P : A → Type 0) (b : Bool) (r : Result PlanError A) (e : PlanError)
    → Gives P r
    → Gives P (if b then r else err e)
guard-Gives P true r e h = h
guard-Gives P false r e h = tt

say_from-Gives : (o : Option Value) → Gives IsPlayable (say_from o)
say_from-Gives (some (text t)) = say_of-Gives (strip t)
say_from-Gives _ = tt

motion_from-Gives : (o duration : Option Value) → Gives IsPlayable (motion_from o duration)
motion_from-Gives (some (text t)) duration = motion_of-Gives (strip t) duration
motion_from-Gives _ duration = tt

validate_say-Gives : (raw : Dict String Value) → Gives IsPlayable (validate_say raw)
unfolding validate_say
validate_say-Gives raw = guard-Gives IsPlayable _ _ _ (say_from-Gives (lookup "text" raw))

validate_ardy_motion-Gives : (raw : Dict String Value) → Gives IsPlayable (validate_ardy_motion raw)
unfolding validate_ardy_motion
validate_ardy_motion-Gives raw =
    guard-Gives IsPlayable _ _ _
      (motion_from-Gives (lookup "prompt" raw) (lookup "duration_seconds" raw))

preset_from-Gives :
    (raw : Dict String Value) (name : String) (o : Option Bool)
    → Gives IsPlayable (preset_from raw name o)
unfolding preset_from
preset_from-Gives raw name none = tt
preset_from-Gives raw name (some finite) =
    guard-Gives IsPlayable _ _ _ (preset_duration-Gives name (lookup "duration_seconds" raw))

-- The resources are those of no action before.
abbrev pub Distinct : List ControlResource → List Action → Type 0
Distinct seen [] = Unit
Distinct seen (a ∷ rest) = (is_seen (resource a) seen ≡ false) × Distinct (resource a ∷ seen) rest

-- One or two playable actions, on distinct resources.
abbrev pub IsPlan : ActionBundle → Type 0
IsPlan b =
    (1 ≤ length b.actions)
    × (length b.actions ≤ 2)
    × Distinct [] b.actions
    × All IsPlayable b.actions

module _ (behaviors : String → Option Bool) where
  preset_named-Gives :
      (raw : Dict String Value) (o : Option Value) → Gives IsPlayable (preset_named behaviors raw o)
  unfolding preset_named
  preset_named-Gives raw (some (text name)) = preset_from-Gives raw name (behaviors name)
  preset_named-Gives raw _ = tt

  by_type-Gives :
      (raw : Dict String Value) (o : Option Value) → Gives IsPlayable (by_type behaviors raw o)
  unfolding by_type validate_preset
  by_type-Gives raw (some (text t)) = ground (
    arith,
    validate_say-Gives raw,
    validate_ardy_motion-Gives raw,
    preset_named-Gives raw (lookup "name" raw),
  )
  by_type-Gives raw _ = tt

  parse_action-Gives : (v : Value) → Gives IsPlayable (parse_action behaviors v)
  unfolding parse_action
  parse_action-Gives (object fs) = by_type-Gives (fields fs) (lookup "type" (fields fs))
  parse_action-Gives _ = tt

  -- What the loop gives for some actions after those on `seen`.
  abbrev Parsed : List ControlResource → ℕ → List Action → Type 0
  Parsed seen n actions = (length actions ≡ n) × Distinct seen actions × All IsPlayable actions

  parse_actions-Gives :
      (seen : List ControlResource) (vs : List Value)
      → Gives (Parsed seen (length vs)) (parse_actions behaviors seen vs)
  unfolding parse_actions
  parse_actions-Gives seen [] = (refl, tt, tt)
  parse_actions-Gives seen (v ∷ vs) =
      then_ok-Gives IsPlayable (Parsed seen (length (v ∷ vs))) (parse_action behaviors v) _
        (parse_action-Gives v)
        λ a playable. elim (Bool-cases (is_seen (resource a) seen)) [
          | inl old ↦ rw old tt
          | inr new ↦ rw new (
              then_ok-Gives (Parsed (resource a ∷ seen) (length vs)) (Parsed seen (length (v ∷ vs)))
                (parse_actions behaviors (resource a ∷ seen) vs) _
                (parse_actions-Gives (resource a ∷ seen) vs)
                λ rest (n, distinct, all). (omega (arith, n), (new, distinct), (playable, all)))
        ]

  bundle_of-Gives : (o : Option Value) → Gives IsPlan (bundle_of behaviors o)
  unfolding then_ok
  bundle_of-Gives (some (array vs)) =
      elim (Bool-cases (leb 1 (length (values vs)) && leb (length (values vs)) 2)) [
        | inl right ↦ rw right (
            then_ok-Gives (Parsed [] (length (values vs))) IsPlan
              (parse_actions behaviors [] (values vs)) _ (parse_actions-Gives [] (values vs))
              λ actions (n, distinct, all). (ground (arith, n), ground (arith, n), distinct, all))
        | inr wrong ↦ rw wrong tt
      ]
  bundle_of-Gives _ = tt

  validate-Gives : (payload : Value) → Gives IsPlan (validate_action_bundle behaviors payload)
  unfolding validate_action_bundle
  validate-Gives (object fs) =
      guard-Gives IsPlan _ _ _ (bundle_of-Gives (lookup "actions" (fields fs)))
  validate-Gives _ = tt

  -- A plan that is not refused has one or two actions on distinct resources; what is said is not empty,
  -- of at most 500 characters and two sentences; a motion's prompt is not empty, of at most 500 ASCII
  -- characters with a letter; and each duration that is given lies from 1 to 10 seconds.
  pub validated-IsPlan :
      (payload : Value) (b : ActionBundle)
      → validate_action_bundle behaviors payload ≡ ok b
      → IsPlan b
  validated-IsPlan payload b e = rw e at (validate-Gives payload)
