-- ===== src/Contracts.antt =====
-- The data types of vrc_ardy_agent/action_contracts.py that every other component shares. Durations
-- and clock readings are whole milliseconds.
use vrc_agent.Json.{Value}
use vrc_agent.Prelude.Int.{ℤ}
pub mod Validation
pub mod Plans
pub mod Tests
use vrc_agent.Prelude.{
  ℕ, String, ◌≡◌, ◌↔◌, Bool, true, false, Option, List, arith, Eq, ◌==◌, if◌then◌else◌,
}

pub data ActionType : Type 0 where
  say ardy_motion motion : ActionType

pub data ControlResource : Type 0 where
  voice_output full_body_pose : ControlResource

pub data ActionState : Type 0 where
  preparing running stopping completed cancelled failed : ActionState

-- `SayAction`, `ArdyMotionAction` and `PresetMotionAction`.
pub data Action : Type 0 where
  say_action : (text : String) → Action
  ardy_motion_action : (prompt : String) (duration : ℕ) → Action
  preset_motion_action : (name : String) (duration : Option ℕ) → Action

abbrev pub action_type : Action → ActionType
action_type (say_action text) = say
action_type (ardy_motion_action prompt duration) = ardy_motion
action_type (preset_motion_action name duration) = motion

abbrev pub resource : Action → ControlResource
resource (say_action text) = voice_output
resource (ardy_motion_action prompt duration) = full_body_pose
resource (preset_motion_action name duration) = full_body_pose

pub record ActionBundle : Type 0 where
  pub actions : List Action

pub record ResourceLease : Type 0 where
  pub resource : ControlResource
  pub token : ℕ
  pub action_id : Option String

pub record ExecutionCommand : Type 0 where
  pub action_id : String
  pub turn_id : String
  pub action : Action
  pub resource : ControlResource
  pub lease_token : ℕ

-- `ResourceLease`, with the token of a message.
pub record SignedLease : Type 0 where
  pub resource : ControlResource
  pub token : ℤ
  pub action_id : Option String

-- `OutputEnvelope`; the payload is only passed on.
pub record OutputEnvelope : Type 0 where
  pub session_id : String
  pub action_id : String
  pub resource : ControlResource
  pub lease_token : ℤ
  pub sequence : ℤ
  pub ttl_ms : ℤ
  pub payload : Value

abbrev pub resource_beq : ControlResource → ControlResource → Bool
resource_beq voice_output voice_output = true
resource_beq full_body_pose full_body_pose = true
resource_beq _ _ = false

pub resource_beq_iff : (a b : ControlResource) → (resource_beq a b ≡ true) ↔ (a ≡ b)
resource_beq_iff a b = ground arith

instance abbrev pub resource_eq : Eq ControlResource
resource_eq = record { beq = resource_beq; beq_iff = resource_beq_iff }

abbrev pub state_beq : ActionState → ActionState → Bool
state_beq preparing preparing = true
state_beq running running = true
state_beq stopping stopping = true
state_beq completed completed = true
state_beq cancelled cancelled = true
state_beq failed failed = true
state_beq _ _ = false

-- A value for each resource, as `{resource: v for resource in ControlResource}` builds it. The
-- source visits such a dict in the order of the enumeration, that of the fields.
pub record PerResource {ℓ} (A : Type ℓ) : Type ℓ where
  pub voice : A
  pub body : A

module _ {ℓ} {A : Type ℓ} where
  abbrev pub both : A → PerResource A
  both a = record { voice = a; body = a }

  abbrev pub at : PerResource A → ControlResource → A
  at p voice_output = p.voice
  at p full_body_pose = p.body

  abbrev pub put : PerResource A → ControlResource → A → PerResource A
  put p voice_output a = record p { voice = a }
  put p full_body_pose a = record p { body = a }

  pub at-put :
      (p : PerResource A) (r q : ControlResource) (a : A)
      → at (put p r a) q ≡ (if q == r then a else at p q)
  at-put p r q a = ground arith
