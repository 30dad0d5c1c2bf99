-- ===== src/Gateway.antt =====
-- `DeviceGateway` of vrc_ardy_agent/device_gateway.py: the only writer of the devices, which admits
-- messages by session, lease and sequence. Each method runs under the lock and is one step; `now` is
-- the clock's reading in it, in milliseconds.
use vrc_agent.Prelude.Monad.{Result}
pub mod State
pub mod Calls
pub mod Fencing
pub mod Ordering
pub mod Ownership
pub mod Watchdog
pub mod Sessions
mod Tests
pub use State.*
use vrc_agent.Prelude.{
  gets, ℕ, ◌+◌, String, Bool, true, false, Option, none, some, List, [], ◌∷◌, ◌++◌, ◌&&◌, ◌||◌, not,
  ◌==◌, nat_eq, string_eq, is_empty, is_value, is_none, ltb, leb, append_bounded, if◌then◌else◌, ok,
  err, Method, raise_if, modify, ◌>>=◌, ◌>>◌,
}
use vrc_agent.Prelude.Int.{ℤ, pos, negsuc, pos_part, ltb_ℤ, leb_ℤ, eqb_ℤ}
use vrc_agent.Prelude.Dict.{lookup, insert}
use vrc_agent.Contracts.{
  SignedLease, OutputEnvelope, ControlResource, voice_output, full_body_pose, both, at, put,
}

pub touch : ℕ → Gateway → Gateway
touch now g = record g { heartbeat = now }

abbrev or_zero : Option ℕ → ℕ
or_zero none = 0
or_zero (some n) = n

-- `_drop_locked`
pub drop : ℕ → DropReason → Gateway → Decision × Gateway
unfolding touch
drop now reason g = (
  rejected reason,
  touch now (record g { drops = insert reason (or_zero (lookup reason g.drops) + 1) g.drops }),
)

pub accept : ℕ → Gateway → Decision × Gateway
unfolding touch
accept now g = (accepted, touch now g)

set_resource : ControlResource → ResourceState → Gateway → Gateway
set_resource r state g = record g { resources = put g.resources r state }

abbrev is_owned : ResourceState → Bool
is_owned state = not (is_none state.action_id)

abbrev revoked : ResourceState → ResourceState
revoked state = record state { action_id = none; expires = none }

module _ (w : World) where
  log_error : Note → Gateway → Gateway
  log_error n g = record g { last_errors = append_bounded w.history_limit g.last_errors n }

  record_call : SinkCall → Gateway → Gateway
  record_call c g = record g { calls = c ∷ g.calls }

  neutralize_answer : ControlResource → Context → Gateway → Option String → Bool × Gateway
  unfolding log_error
  neutralize_answer r context g none = (true, g)
  neutralize_answer r context g (some exc) = (false, log_error (neutralize_failed r context exc) g)

  -- `_safe_neutralize_locked`
  pub safe_neutralize : ControlResource → Context → Gateway → Bool × Gateway
  unfolding neutralize_answer record_call
  safe_neutralize r context g =
      neutralize_answer r context (record_call (neutral_call r) g)
        (w.answer g.calls (neutral_call r))

  -- `_neutralize_all_locked`
  neutralize_all : Context → Gateway → Gateway
  unfolding safe_neutralize
  neutralize_all context g =
      (safe_neutralize full_body_pose context (safe_neutralize voice_output context g).1).1

  -- A session that is not the one that is open takes over, from a fresh table.
  enter_session : ℕ → String → Gateway → Gateway
  unfolding neutralize_all touch
  enter_session now id g =
      if is_value id g.session_id
      then touch now g
      else touch now (record (neutralize_all session_changed g) {
        session_id = some id;
        resources = both fresh_resource;
      })

  -- `self._exclusive_session and self._exclusive_session != session_id`
  owned_by_other : String → Option String → Bool
  owned_by_other id none = false
  owned_by_other id (some owner) = not (is_empty owner) && not (is_value id (some owner))

  unfoldable pub open_session : ℕ → String → Method Gateway GatewayError (Unit {0})
  unfolding enter_session owned_by_other
  open_session now id g =
      if is_empty id
      then (err empty_session_id, g)
      else if owned_by_other id g.exclusive_session
      then (err calibration_owns, g)
      else (ok tt, enter_session now id g)

  -- What `claim_exclusive_session` does once `open_session` has returned or raised.
  claim_end :
      String → Result GatewayError (Unit {0}) × Gateway → Result GatewayError (Unit {0}) × Gateway
  claim_end id (ok _, g) = (ok tt, record g { exclusive_session = some id })
  claim_end id (err e, g) = (err e, g)

  pub claim_exclusive_session : ℕ → String → Method Gateway GatewayError (Unit {0})
  unfolding open_session claim_end
  claim_exclusive_session now id g =
      if not (is_none g.session_id)
      then (err already_connected, g)
      else claim_end id (open_session now id g)

  pub release_exclusive_session : ℕ → String → Method Gateway GatewayError (Unit {0})
  unfolding touch
  release_exclusive_session now id g =
      if not (is_value id g.exclusive_session) || not (is_value id g.session_id)
      then (err session_changed_hands, g)
      else if is_owned (at g.resources voice_output) || is_owned (at g.resources full_body_pose)
      then (err outputs_owned, g)
      else (ok tt, touch now (record g { exclusive_session = none; session_id = none }))

  pub close_session : ℕ → String → Gateway → Decision × Gateway
  unfolding neutralize_all drop accept
  close_session now id g =
      let g' = neutralize_all session_closed g in
      if is_value id g.session_id
      then accept now (record g' {
        resources = record {
          voice = revoked (at g'.resources voice_output);
          body = revoked (at g'.resources full_body_pose);
        };
        session_id = none;
        exclusive_session = none;
      })
      else drop now wrong_session g

  unfoldable pub authorize : ℕ → String → SignedLease → Gateway → Decision × Gateway
  unfolding drop accept set_resource
  authorize now id lease g =
      let state = at g.resources lease.resource in
      if not (is_value id g.session_id)
      then drop now wrong_session g
      else if is_none lease.action_id || leb_ℤ lease.token (pos 0)
      then drop now invalid g
      else if eqb_ℤ lease.token state.lease_token && same_action lease.action_id state.action_id
      then accept now g
      else if leb_ℤ lease.token state.lease_token
      then drop now wrong_lease g
      else accept now (
          set_resource lease.resource
            (record {
              lease_token = lease.token;
              action_id = lease.action_id;
              last_sequence = negsuc 0;
              expires = none;
            })
            g)

  -- The resource's state once a neutral output with the token was admitted.
  abbrev fenced : ℤ → ResourceState → ResourceState
  fenced token state =
      if ltb_ℤ state.lease_token token
      then record {
        lease_token = token;
        action_id = none;
        last_sequence = negsuc 0;
        expires = none;
      }
      else revoked state

  neutralize_end : ℕ → Bool × Gateway → Decision × Gateway
  unfolding accept drop
  neutralize_end now (true, g) = accept now g
  neutralize_end now (false, g) = drop now sink_error g

  pub neutralize : ℕ → String → ControlResource → ℤ → Gateway → Decision × Gateway
  unfolding drop set_resource safe_neutralize neutralize_end
  neutralize now id r token g =
      let state = at g.resources r in
      if not (is_value id g.session_id)
      then drop now wrong_session g
      else if ltb_ℤ token state.lease_token
      then drop now wrong_lease g
      else neutralize_end now
          (safe_neutralize r explicit_neutralize (set_resource r (fenced token state) g))

  abbrev applied : OutputEnvelope → ℕ → ResourceState → ResourceState
  applied e expires state = record state { last_sequence = e.sequence; expires = some expires }

  apply_answer : ℕ → OutputEnvelope → ℕ → Gateway → Option String → Decision × Gateway
  unfolding log_error drop accept set_resource
  apply_answer now e expires g none =
      accept now (set_resource e.resource (applied e expires (at g.resources e.resource)) g)
  apply_answer now e expires g (some exc) =
      drop now sink_error (log_error (apply_failed e.resource exc) g)

  -- `clock` is the reading that dates the heartbeat; `received` and `now` are the message's.
  unfoldable pub apply_envelope : ℕ → OutputEnvelope → ℕ → ℕ → Gateway → Decision × Gateway
  unfolding drop apply_answer record_call
  apply_envelope clock e received now g =
      let state = at g.resources e.resource in
      let expires = received + pos_part e.ttl_ms in
      if not (is_value e.session_id g.session_id)
      then drop clock wrong_session g
      else if is_empty e.action_id
          || ltb_ℤ e.sequence (pos 0)
          || leb_ℤ e.ttl_ms (pos 0)
          || ltb now received
      then drop clock invalid g
      else if not (eqb_ℤ e.lease_token state.lease_token)
          || not (is_value e.action_id state.action_id)
      then drop clock wrong_lease g
      else if leb_ℤ e.sequence state.last_sequence
      then drop clock old_sequence g
      else if ltb expires now
      then drop clock expired g
      else apply_answer clock e expires (record_call (apply_call e) g)
          (w.answer g.calls (apply_call e))

  -- `state.action_id is None or state.expires_monotonic is None or now < state.expires_monotonic`
  abbrev is_live : ℕ → ResourceState → Bool
  is_live now state =
      is_none state.action_id || (elim state.expires [ none ↦ true | some t ↦ ltb now t ])

  -- One turn of the loop of `poll_expired`.
  poll_resource : ℕ → ControlResource → Gateway → List ControlResource × Gateway
  unfolding set_resource safe_neutralize
  poll_resource now r g =
      let state = at g.resources r in
      let g' = (safe_neutralize r ttl_expired (set_resource r (revoked state) g)).1 in
      if is_live now state
      then ([], g)
      else (r ∷ [], record g' { watchdog_expirations = g'.watchdog_expirations + 1 })

  unfoldable pub poll_expired : ℕ → ℕ → Gateway → List ControlResource × Gateway
  unfolding poll_resource touch
  poll_expired clock now g =
      let (voice, g1) = poll_resource now voice_output g in
      let (body, g2) = poll_resource now full_body_pose g1 in (voice ++ body, touch clock g2)
