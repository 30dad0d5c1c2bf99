-- ===== src/Turns.antt =====
-- `DialogueTurnManager` of vrc_ardy_agent/dialogue_turns.py: the generation that fences stale
-- responses. The lock makes each method one step; `now` is the clock's reading in it.
pub mod Freshness
mod Tests
use vrc_agent.Prelude.{
  ℕ, ◌+◌, String, Bool, true, false, Option, none, some, ◌&&◌, ◌==◌, nat_eq, string_eq, is_empty,
  strip, if◌then◌else◌, Result, ok, err, Method,
}

pub record TurnToken : Type 0 where
  pub turn_id : String
  pub version : ℕ

pub record Turns : Type 0 where
  pub version : ℕ
  pub latest_turn_id : Option String
  pub pending : Option TurnToken
  pub last_invalidation_reason : Option String
  pub heartbeat : ℕ

pub data TurnError : Type 0 where
  bad_turn_id empty_reason : TurnError

abbrev pub init : Turns
init = record {
  version = 0;
  latest_turn_id = none;
  pending = none;
  last_invalidation_reason = none;
  heartbeat = 0;
}

abbrev token_beq : TurnToken → TurnToken → Bool
token_beq a b = a.turn_id == b.turn_id && a.version == b.version

-- `self._pending == token`
abbrev is_pending : TurnToken → Option TurnToken → Bool
is_pending token none = false
is_pending token (some p) = token_beq p token

-- The turn under the id that the factory gave.
pub begin_turn : ℕ → String → Method Turns TurnError TurnToken
begin_turn now turn_id m =
    let token : TurnToken = record { turn_id = turn_id; version = m.version + 1 } in
    if is_empty turn_id then (err bad_turn_id, m) else (
      ok token,
      record {
        version = m.version + 1;
        latest_turn_id = some turn_id;
        pending = some token;
        last_invalidation_reason = none;
        heartbeat = now;
      },
    )

pub is_current : TurnToken → Turns → Bool
is_current token m = is_pending token m.pending

abbrev consume : ℕ → Turns → Turns
consume now m = record m { pending = none; heartbeat = now }

pub claim_current : ℕ → TurnToken → Turns → Bool × Turns
claim_current now token m = if is_pending token m.pending then (true, consume now m) else (false, m)

-- The result of a call that ran its operation: `True`, or what the operation raised.
abbrev accepted : {E : Type 0} → Result E (Unit {0}) → Result E Bool
accepted (ok _) = ok true
accepted (err e) = err e

-- The operation works on a state X of its own, and may raise; the turn is consumed either way.
pub apply_if_current :
    {X E : Type 0} → ℕ → TurnToken → Method X E (Unit {0}) → Method (Turns × X) E Bool
apply_if_current now token operation (m, x) =
    let (r, x') = operation x in
    if is_pending token m.pending then (accepted r, (consume now m, x')) else (ok false, (m, x))

pub invalidate_pending : ℕ → String → Method Turns TurnError ℕ
invalidate_pending now reason m =
    let why = strip reason in
    let version : ℕ = elim m.pending [ none ↦ m.version | some _ ↦ m.version + 1 ] in
    if is_empty why then (err empty_reason, m) else (
      ok version,
      record m {
        version = version;
        pending = none;
        last_invalidation_reason = some why;
        heartbeat = now;
      },
    )

pub record TurnSnapshot : Type 0 where
  pub latest_turn_id : Option String
  pub pending_turn_id : Option String
  pub version : ℕ
  pub last_invalidation_reason : Option String
  pub heartbeat : ℕ

pub snapshot : Turns → TurnSnapshot
snapshot m = record {
  latest_turn_id = m.latest_turn_id;
  pending_turn_id = elim m.pending [ none ↦ none | some p ↦ some p.turn_id ];
  version = m.version;
  last_invalidation_reason = m.last_invalidation_reason;
  heartbeat = m.heartbeat;
}
