-- ===== src/Supervisor/State.antt =====
-- The state of character_supervisor.py, and the calls that it makes of the world outside: the output
-- authority, the executors' threads and the factory of action ids.
use vrc_agent.Prelude.{ℕ, String, Bool, Option, List}
use vrc_agent.Prelude.Dict.{Dict}
use vrc_agent.Contracts.{
  ActionType, ControlResource, ActionState, Action, ResourceLease, ExecutionCommand,
}
use vrc_agent.Resources.{ResourceManager, ResourceError}

-- The texts of the errors that the supervisor records, with the values that they quote.
pub data Note : Type 0 where
  authorization_failed : (exc : String) → Note
  neutralize_failed : ControlResource → (token : ℕ) → (exc : String) → Note
  execution_failed : (action_id exc : String) → Note
  cancelled_before_start : (reason : String) → Note
  superseded_before_start : Note
  cancel_requested : (reason : String) → Note

-- What the supervisor does to the world, in order.
pub data Effect : Type 0 where
  -- the calls of the `OutputAuthority`
  authorize : ResourceLease → Effect
  neutralize : ControlResource → ℕ → Effect
  -- `thread.start()`, `cancel_event.set()` and `done_event.set()` of an action
  start_thread signal_cancel : ExecutionCommand → Effect
  done : (ref : ℕ) → Effect

-- The collaborators: the constructor's `executors` and `history_limit`, the answer of the output
-- authority to a call after some effects, newest first (the text of what it raised, if it did), and
-- the n-th id of the factory.
pub record World : Type 0 where
  pub managed : ActionType → Bool
  pub history_limit : ℕ
  pub answer : List Effect → Effect → Option String
  pub new_id : ℕ → String

-- `_PendingAction`
pub record PendingAction : Type 0 where
  pub action_id : String
  pub turn_id : String
  pub action : Action
  pub requested : ℕ

-- `_ActionHandle`; `ref` is the identity of the object.
pub record Handle : Type 0 where
  pub ref : ℕ
  pub command : ExecutionCommand
  pub cancel_set : Bool
  pub state : ActionState
  pub started : Option ℕ
  pub error : Option Note

pub record ActionSnapshot : Type 0 where
  pub action_id : String
  pub turn_id : String
  pub action_type : ActionType
  pub resource : ControlResource
  pub state : ActionState
  pub lease_token : Option ℕ
  pub error : Option Note
  pub started : Option ℕ
  pub ended : Option ℕ

pub record Supervisor : Type 0 where
  pub resources : ResourceManager
  pub current : Dict ControlResource Handle
  pub pending : Dict ControlResource PendingAction
  pub recent : List ActionSnapshot
  pub last_errors : List Note
  pub heartbeat : ℕ
  -- ids drawn and handles made so far, and the effects so far, newest first
  pub drawn : ℕ
  pub next_ref : ℕ
  pub effects : List Effect

pub data SupervisorError : Type 0 where
  empty_turn_id bad_bundle_length duplicate_resources bad_action_id empty_reason : SupervisorError
  not_managed : List ActionType → SupervisorError
  resource_error : ResourceError → SupervisorError

pub record HaltResult : Type 0 where
  pub reason : String
  pub resource_tokens : List (ControlResource × ℕ)
