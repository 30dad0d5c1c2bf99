-- ===== src/Gateway/Tests.antt =====
-- One session of device_gateway.py at concrete inputs.
use vrc_agent.Json.{null}
use vrc_agent.Prelude.{
  ◌≡◌, ◌≢◌, ◌↔◌, refl, true, none, some, List, [], ◌∷◌, arith, ok, err, if◌then◌else◌, is_empty,
  is_value, string_eq,
}
use vrc_agent.Prelude.Int.{ℤ, pos}
use vrc_agent.Contracts.{SignedLease, OutputEnvelope, voice_output, at}
use vrc_agent.Gateway.{
  Gateway, World, accepted, rejected, old_sequence, already_connected, calibration_owns,
  empty_session_id, init, authorize, neutralize, apply_envelope, poll_expired, open_session,
  claim_exclusive_session,
}
use vrc_agent.Gateway.Calls.{authorize_call, envelope_call, run, run_call}
use vrc_agent.Gateway.Fencing.{neutralize_fences}
use vrc_agent.Gateway.Ordering.{Before, accepted_in_order}
use vrc_agent.Gateway.Watchdog.{HasExpired, contains, poll_expired_lem, watchdog_fences}
use vrc_agent.Gateway.Sessions.{
  SessionCall, open_call, claim_call, run_session, run_session_call, claim_is_exclusive,
}

-- A sink that never raises.
abbrev world : World
world = record { history_limit = 50; answer = λ _ _. none }

abbrev lease : SignedLease
lease = record { resource = voice_output; token = pos 1; action_id = some "a" }

abbrev message : ℤ → OutputEnvelope
message sequence = record {
  session_id = "s";
  action_id = "a";
  resource = voice_output;
  lease_token = pos 1;
  sequence = sequence;
  ttl_ms = pos 100;
  payload = null;
}

-- The session is open and the lease authorised.
abbrev ready : Gateway
ready = (authorize world 2 "s" lease (open_session world 1 "s" (init 0)).1).1

abbrev playing : Gateway
playing = (apply_envelope world 10 (message (pos 0)) 10 10 ready).1

replay_refused : (apply_envelope world 11 (message (pos 0)) 11 11 playing).0 ≡ rejected old_sequence
unfolding apply_envelope authorize open_session
replay_refused = refl

accepted_in_order_example : Before (pos 1) (pos 0) (pos 1) (pos 3)
unfolding apply_envelope authorize open_session run run_call
accepted_in_order_example =
    accepted_in_order world 10 20 (message (pos 0)) (message (pos 3)) 10 10 20 20 ready
      (envelope_call 15 (message (pos 1)) 15 15 ∷ []) refl refl refl

neutralize_fences_example :
    (apply_envelope world 40 (message (pos 9)) 40 40 (
      run world
        (authorize_call 30 "s" lease ∷ [])
        (neutralize world 20 "s" voice_output (pos 2) playing).1)).0
    ≢ accepted
unfolding neutralize apply_envelope authorize open_session
neutralize_fences_example =
    neutralize_fences world 20 "s" voice_output (pos 2) playing (authorize_call 30 "s" lease ∷ [])
      40 (message (pos 9)) 40 40 (λ e. cc e) (λ e. cc e) refl (omega arith)

poll_expired_lem_example :
    let (reported, g) = poll_expired world 200 200 playing in
    ((contains voice_output reported ≡ true)
      ↔ HasExpired 200
          (at playing.resources voice_output).action_id
          (at playing.resources voice_output).expires)
    × (at g.resources voice_output ≡ (
        if contains voice_output reported
        then record (at playing.resources voice_output) { action_id = none; expires = none }
        else at playing.resources voice_output))
poll_expired_lem_example = poll_expired_lem world 200 200 voice_output playing

watchdog_fences_example :
    (apply_envelope world 300
      (message (pos 9))
      300
      300
      (run world (authorize_call 250 "s" lease ∷ []) (poll_expired world 200 200 playing).1)).0
    ≢ accepted
unfolding poll_expired apply_envelope authorize open_session
watchdog_fences_example =
    watchdog_fences world 200 200 playing (authorize_call 250 "s" lease ∷ []) 300 (message (pos 9))
      300 300 refl (omega arith)

abbrev claims : List SessionCall
claims = open_call 1 "" ∷ claim_call 2 "calibration" ∷ []

claim_is_exclusive_example :
    let g = run_session world claims (init 0) in
    (g.exclusive_session ≡ g.session_id)
    × (claim_exclusive_session world 5 "s" g ≡ (err already_connected, g))
    × (open_session world 5 "s" g ≡ (
        if is_empty "s"
        then (err empty_session_id, g)
        else if is_value "s" g.session_id
        then (ok tt, record g { heartbeat = 5 })
        else (err calibration_owns, g)))
unfolding run_session run_session_call open_session claim_exclusive_session
claim_is_exclusive_example = claim_is_exclusive world 0 claims 5 "s" (λ e. cc e)
