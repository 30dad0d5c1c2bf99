-- ===== src/Idle.antt =====
-- `IdleBehaviorPolicy` of vrc_ardy_agent/idle_behavior_policy.py: which behaviour is submitted when
-- nothing else has happened for an interval. Times are whole milliseconds.
pub mod Cycle
mod Tests
use vrc_agent.Prelude.{
  ℕ, zero, suc, ◌+◌, ◌-◌, ◌%◌, String, Bool, true, false, Option, none, some, List, [], ◌∷◌, ◌&&◌,
  ◌||◌, not, is_none, ltb, length, get_elem?, if◌then◌else◌,
}

pub data IdleState : Type 0 where
  waiting unavailable disabled blocked failed submitted : IdleState

-- What the constructor keeps of its arguments.
pub record Settings : Type 0 where
  pub enabled : Bool
  pub interval : ℕ
  pub pool : List String

pub record Policy : Type 0 where
  pub idle_since : Option ℕ
  pub cursor : ℕ
  pub state : IdleState
  pub last_action_id : Option String
  pub last_error : Option String
  pub heartbeat : ℕ

-- What `submit` did: it gave an action's id or `None`, or raised.
pub data Submission : Type 0 where
  took : String → Submission
  declined : Submission
  raised : String → Submission

abbrev pub has_pool : List String → Bool
has_pool [] = false
has_pool (x ∷ xs) = true

module _ (c : Settings) where
  abbrev pub init : Policy
  init = record {
    idle_since = none;
    cursor = 0;
    state =
        if c.enabled && has_pool c.pool
        then waiting
        else if c.enabled
        then unavailable
        else disabled;
    last_action_id = none;
    last_error = none;
    heartbeat = 0;
  }

  unfoldable pub interrupt : Policy → Policy
  interrupt p = record p {
    idle_since = none;
    state = if c.enabled && has_pool c.pool && is_none p.last_error then blocked else p.state;
  }

  -- What `tick` does once `submit` has returned or raised.
  unfoldable pub after_submit : Submission → Policy → Policy
  after_submit (raised exc) p = record p { state = failed; last_error = some exc }
  after_submit declined p = record p { idle_since = none; state = blocked }
  after_submit (took action_id) p = record p {
    idle_since = none;
    state = submitted;
    last_action_id = some action_id;
    cursor = (p.cursor + 1) % length c.pool;
  }

  abbrev since : Option ℕ → ℕ → ℕ
  since none now = now
  since (some t) now = t

  -- The submission of the behaviour at the cursor; past the end of the pool `self.pool[…]` raises.
  unfoldable pub submit_at : (String → Submission) → Policy → Option String → Policy × Option String
  unfolding after_submit
  submit_at submit p none = (after_submit (raised "IndexError: tuple index out of range") p, none)
  submit_at submit p (some key) = (after_submit (submit key) p, some key)

  -- The policy after a tick, and the behaviour that `submit` was called with.
  unfoldable pub tick : ℕ → Bool → (String → Submission) → Policy → Policy × Option String
  unfolding submit_at
  tick now eligible submit p =
      let beat : Policy = record p { heartbeat = now } in
      let start = since p.idle_since now in
      let idle : Policy = record beat { idle_since = some start; state = waiting } in
      if not c.enabled || not (has_pool c.pool) || not (is_none p.last_error)
      then (beat, none)
      else if not eligible
      then (record beat { idle_since = none; state = blocked }, none)
      else if ltb (now - start) c.interval
      then (idle, none)
      else submit_at submit idle (get_elem? c.pool p.cursor)
