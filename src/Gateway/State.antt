-- ===== src/Gateway/State.antt =====
-- The state of device_gateway.py and the calls that it makes of the device sink. Tokens, sequences
-- and lifetimes come from messages and are signed; lifetimes and clock readings are milliseconds.
use vrc_agent.Prelude.{
  ℕ, String, ◌≡◌, ◌↔◌, Bool, true, false, Option, none, some, List, [], arith, Eq, nat_beq, ◌==◌,
  string_eq,
}
use vrc_agent.Prelude.Int.{ℤ, pos, negsuc}
use vrc_agent.Prelude.Dict.{Dict}
use vrc_agent.Contracts.{OutputEnvelope, ControlResource, PerResource, both}

-- `GatewayDropReason`
pub data DropReason : Type 0 where
  wrong_session wrong_lease old_sequence expired invalid sink_error : DropReason

abbrev rank : DropReason → ℕ
rank wrong_session = 0
rank wrong_lease = 1
rank old_sequence = 2
rank expired = 3
rank invalid = 4
rank sink_error = 5

abbrev pub reason_beq : DropReason → DropReason → Bool
reason_beq a b = nat_beq (rank a) (rank b)

pub reason_beq_iff : (a b : DropReason) → (reason_beq a b ≡ true) ↔ (a ≡ b)
reason_beq_iff a b = ground arith

instance abbrev pub reason_eq : Eq DropReason
reason_eq = record { beq = reason_beq; beq_iff = reason_beq_iff }

-- `GatewayDecision`
pub data Decision : Type 0 where
  accepted : Decision
  rejected : DropReason → Decision

-- Why the devices are put in neutral, and the errors that the gateway records.
pub data Context : Type 0 where
  session_changed session_closed explicit_neutralize ttl_expired : Context

pub data Note : Type 0 where
  apply_failed : ControlResource → (exc : String) → Note
  neutralize_failed : ControlResource → Context → (exc : String) → Note

-- The calls of the `DeviceSink`.
pub data SinkCall : Type 0 where
  apply_call : OutputEnvelope → SinkCall
  neutral_call : ControlResource → SinkCall

-- `error_history_limit`, and the sink's answer to a call after some calls, newest first: the text of
-- what it raised, if it did.
pub record World : Type 0 where
  pub history_limit : ℕ
  pub answer : List SinkCall → SinkCall → Option String

-- `_ResourceState`
pub record ResourceState : Type 0 where
  pub lease_token : ℤ
  pub action_id : Option String
  pub last_sequence : ℤ
  pub expires : Option ℕ

abbrev pub fresh_resource : ResourceState
fresh_resource = record {
  lease_token = pos 0;
  action_id = none;
  last_sequence = negsuc 0;
  expires = none;
}

pub record Gateway : Type 0 where
  pub session_id : Option String
  pub exclusive_session : Option String
  pub resources : PerResource ResourceState
  pub drops : Dict DropReason ℕ
  pub watchdog_expirations : ℕ
  pub last_errors : List Note
  pub heartbeat : ℕ
  -- what went to the sink, newest first
  pub calls : List SinkCall

pub data GatewayError : Type 0 where
  empty_session_id calibration_owns already_connected session_changed_hands outputs_owned :
      GatewayError

-- The gateway that the constructor makes.
abbrev pub init : ℕ → Gateway
init now = record {
  session_id = none;
  exclusive_session = none;
  resources = both fresh_resource;
  drops = [];
  watchdog_expirations = 0;
  last_errors = [];
  heartbeat = now;
  calls = [];
}

-- `lease.action_id == state.action_id`
abbrev pub same_action : Option String → Option String → Bool
same_action none none = true
same_action (some a) (some b) = a == b
same_action _ _ = false
