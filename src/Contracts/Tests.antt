-- ===== src/Contracts/Tests.antt =====
-- A plan of two actions, as decoded JSON.
use vrc_agent.Contracts.{ActionBundle, say_action, ardy_motion_action}
use vrc_agent.Json.{
  Value, object, array, text, real, field, no_fields, value, no_values, has_exactly, text_length,
}
use vrc_agent.Contracts.Validation.{
  validate_action_bundle, parse_actions, then_ok, is_seen, parse_action, by_type, validate_say,
  validate_ardy_motion, duration_from, sentence_count, is_ascii, has_letter,
}
use vrc_agent.Contracts.Plans.{IsPlan, validated-IsPlan}
use vrc_agent.Prelude.Int.{pos}
use vrc_agent.Prelude.{strip, ◌≡◌, refl, String, Bool, Option, none, [], ◌∷◌, ok}

abbrev greeting : Value
greeting = object (field "type" (text "say") (field "text" (text " Hi there. ") no_fields))

abbrev wave : Value
wave = object (
    field "type" (text "ardy_motion")
      (field "prompt" (text "wave") (field "duration_seconds" (real (pos 2500)) no_fields)))

abbrev pub payload : Value
payload = object (field "actions" (array (value greeting (value wave no_values))) no_fields)

abbrev pub no_behaviors : String → Option Bool
no_behaviors name = none

abbrev pub plan : ActionBundle
plan = record { actions = say_action "Hi there." ∷ ardy_motion_action "wave" 2500 ∷ [] }

pub plan_parsed : validate_action_bundle no_behaviors payload ≡ ok plan
unfolding validate_action_bundle has_exactly parse_actions then_ok is_seen parse_action by_type
    validate_say validate_ardy_motion duration_from sentence_count text_length is_ascii has_letter
    strip
plan_parsed = refl

validated-IsPlan_example : IsPlan plan
validated-IsPlan_example = validated-IsPlan no_behaviors payload plan plan_parsed
