-- ===== src/Supervisor/Query.antt =====
-- What character_supervisor.py shows of its state: `snapshot` and the state of an action by its id.
use vrc_agent.Prelude.{
  ℕ, String, Option, none, some, List, [], ◌∷◌, ◌++◌, map, ◌==◌, string_eq, reverse, if◌then◌else◌,
}
use vrc_agent.Prelude.Dict.{Dict, lookup}
use vrc_agent.Contracts.{
  ControlResource, voice_output, full_body_pose, ActionState, preparing, resource_eq, resource_beq,
}
use vrc_agent.Supervisor.State.{Handle, PendingAction, ActionSnapshot, Note, Supervisor}
use vrc_agent.Supervisor.Output.{handle_snapshot, pending_snapshot}

pub record SupervisorSnapshot : Type 0 where
  pub current_actions : List ActionSnapshot
  pub pending_actions : List ActionSnapshot
  pub recent_actions : List ActionSnapshot
  pub heartbeat : ℕ
  pub last_errors : List Note

abbrev value_of {ℓ} : {A : Type ℓ} → Option A → List A
value_of none = []
value_of (some a) = a ∷ []

-- The values of a dict whose items are sorted by the resource's value.
sorted_values {ℓ} : {A : Type ℓ} → Dict ControlResource A → List A
sorted_values d = value_of (lookup full_body_pose d) ++ value_of (lookup voice_output d)

pub snapshot : ℕ → Supervisor → SupervisorSnapshot
unfolding sorted_values
snapshot now s = record {
  current_actions = map (handle_snapshot none) (sorted_values s.current);
  pending_actions = map (pending_snapshot now preparing none) (sorted_values s.pending);
  recent_actions = s.recent;
  heartbeat = s.heartbeat;
  last_errors = s.last_errors;
}

-- `SupervisorSnapshot.current`
abbrev first_on : ControlResource → List ActionSnapshot → Option ActionSnapshot
first_on r [] = none
first_on r (a ∷ rest) = if resource_beq a.resource r then some a else first_on r rest

pub current_of : SupervisorSnapshot → ControlResource → Option ActionSnapshot
current_of shot r = first_on r shot.current_actions

abbrev state_in_current : String → Dict ControlResource Handle → Option ActionState
state_in_current id [] = none
state_in_current id ((r, h) ∷ rest) =
    if h.command.action_id == id then some h.state else state_in_current id rest

abbrev state_in_pending : String → Dict ControlResource PendingAction → Option ActionState
state_in_pending id [] = none
state_in_pending id ((r, p) ∷ rest) =
    if p.action_id == id then some preparing else state_in_pending id rest

abbrev state_in_recent : String → List ActionSnapshot → Option ActionState
state_in_recent id [] = none
state_in_recent id (a ∷ rest) = if a.action_id == id then some a.state else state_in_recent id rest

abbrev or_else : Option ActionState → Option ActionState → Option ActionState
or_else (some state) other = some state
or_else none other = other

-- `_find_action_state_locked`: the newest record of an action that has ended comes last.
pub find_action_state : String → Supervisor → Option ActionState
find_action_state id s =
    or_else (state_in_current id s.current)
      (or_else (state_in_pending id s.pending) (state_in_recent id (reverse s.recent)))
