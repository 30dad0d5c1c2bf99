-- ===== src/Supervisor/Planned.antt =====
-- The plans that action_contracts.py lets through meet the checks of `apply_bundle`.
use vrc_agent.Contracts.{Action, ActionBundle, ActionType, action_type, resource}
use vrc_agent.Json.{Value}
use vrc_agent.Contracts.Validation.{validate_action_bundle, is_seen}
use vrc_agent.Contracts.Plans.{Distinct, validated-IsPlan}
use vrc_agent.Prelude.{
  arith, ◌≤◌, ◌≡◌, ◌≢◌, refl, String, Bool, true, false, Option, none, List, [], ◌∷◌, length, ok,
  eq_iff, map,
}
use vrc_agent.Supervisor.State.{World}
use vrc_agent.Supervisor.{bundle_error, unmanaged, is_nil, has_duplicates}

unmanaged-nil :
    (w : World) (actions : List Action)
    → ((t : ActionType) → w.managed t ≡ true)
    → is_nil (unmanaged w actions) ≡ true
unfolding unmanaged
unmanaged-nil w [] h = refl
unmanaged-nil w (a ∷ rest) h = rw (h (action_type a)) (unmanaged-nil w rest h)

-- Two actions at most: distinct one after the other is without duplicates.
Distinct-duplicates :
    (actions : List Action)
    → length actions ≤ 2
    → Distinct [] actions
    → has_duplicates (map resource actions) ≡ false
unfolding has_duplicates is_seen
Distinct-duplicates [] le h = refl
Distinct-duplicates (a ∷ []) le h = refl
Distinct-duplicates (a ∷ b ∷ []) le h = ground (arith, h)
Distinct-duplicates (a ∷ b ∷ c ∷ rest) le h = ground (arith, le)

bundle_error-none :
    (w : World) (actions : List Action) (turn_id : String)
    → turn_id ≢ ""
    → 1 ≤ length actions
    → length actions ≤ 2
    → is_nil (unmanaged w actions) ≡ true
    → has_duplicates (map resource actions) ≡ false
    → bundle_error w actions turn_id ≡ none
unfolding bundle_error
bundle_error-none w actions turn_id named low high managed distinct =
    ground (arith, eq_iff turn_id "")

-- Where every type of action has an executor, a plan that the validation lets through is refused by
-- none of the checks of `apply_bundle`, under any turn id that is not empty.
pub validated_accepted :
    (w : World) (behaviors : String → Option Bool) (payload : Value) (b : ActionBundle)
    (turn_id : String)
    → ((t : ActionType) → w.managed t ≡ true)
    → turn_id ≢ ""
    → validate_action_bundle behaviors payload ≡ ok b
    → bundle_error w b.actions turn_id ≡ none
validated_accepted w behaviors payload b turn_id managed named e =
    let (low, high, distinct, playable) = validated-IsPlan behaviors payload b e in
    bundle_error-none w b.actions turn_id named low high (unmanaged-nil w b.actions managed)
      (Distinct-duplicates b.actions high distinct)
