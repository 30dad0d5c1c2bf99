-- ===== src/WindowsBridge/Tests.antt =====
-- Sessions of windows_bridge_client.py at concrete frames.
use vrc_agent.Prelude.Int.{pos}
use vrc_agent.Prelude.{
  ℕ, ◌≡◌, refl, true, false, none, some, List, [], ◌∷◌, nat_eq, string_eq, strip, ok,
}
use vrc_agent.WindowsBridge.Reconnecting.{Attempt, attempts}
use vrc_agent.WindowsBridge.Closed.{IsClosed, attempts-IsClosed}
use vrc_agent.WindowsOutput.{Readings, handle}
use vrc_agent.WindowsBridge.{
  Bridge, Turn, timed_out, beating, arrived, turn, dispatch, control, loop, run_session,
}
use vrc_agent.WindowsBridge.Frames.{frames_in_order, run_session-IsReleased}
use vrc_agent.Gateway.Ownership.{IsReleased}
use vrc_agent.Gateway.Ordering.{Before}
use vrc_agent.Gateway.{Gateway, World, authorize, open_session, apply_envelope, poll_expired, init}
use vrc_agent.Protocol.Messages.{Message, SessionOpen}
use vrc_agent.Protocol.Decode.{
  Raw, decode_message, decode_output_data, decode_heartbeat, decode_typed, decode_root,
}
use vrc_agent.Protocol.Checks.{identifier_of}
use vrc_agent.Contracts.{SignedLease, OutputEnvelope, voice_output, at}
use vrc_agent.Json.{Value, object, field, no_fields, text, integer, text_length, has_exactly}

abbrev world : World
world = record { history_limit = 50; answer = λ _ _. none }

abbrev frame : Value → Raw
frame v = record { size = 300; is_utf8 = true; json = some v }

abbrev authorize_frame : Raw
authorize_frame = frame (
    object (
      field "type" (text "output.authorize") (
        field "version" (integer (pos 2)) (
          field "message_id" (text "m") (
            field "session_id" (text "s") (
              field "resource" (text "VOICE_OUTPUT") (
                field "lease_token" (integer (pos 1))
                  (field "action_id" (text "a") no_fields))))))))

abbrev data_frame : ℕ → Raw
data_frame n = frame (
    object (
      field "type" (text "output.data") (
        field "version" (integer (pos 2)) (
          field "session_id" (text "s") (
            field "action_id" (text "a") (
              field "resource" (text "VOICE_OUTPUT") (
                field "lease_token" (integer (pos 1)) (
                  field "sequence" (integer (pos n)) (
                    field "ttl_ms" (integer (pos 100))
                      (field "payload" (object no_fields) no_fields))))))))))

abbrev heartbeat_frame : ℕ → Raw
heartbeat_frame n = frame (
    object (
      field "type" (text "heartbeat") (
        field "version" (integer (pos 2)) (
          field "session_id" (text "s")
            (field "sender" (text "mac") (field "sequence" (integer (pos n)) no_fields))))))

abbrev envelope : ℕ → OutputEnvelope
envelope n = record {
  session_id = "s";
  action_id = "a";
  resource = voice_output;
  lease_token = pos 1;
  sequence = pos n;
  ttl_ms = pos 100;
  payload = object no_fields;
}

abbrev at_time : ℕ → Readings
at_time t = record { received = t; now = t; clock = t }

abbrev lease : SignedLease
lease = record { resource = voice_output; token = pos 1; action_id = some "a" }

abbrev bridge : Gateway → Bridge
bridge g = record {
  gateway = g;
  session_id = some "s";
  remote_heartbeat_sequence = none;
  connection_attempts = 1;
  connections_opened = 1;
  messages_received = 0;
  messages_sent = 0;
  watchdog_expirations = 0;
  protocol_errors = 0;
  last_error = none;
  heartbeat = 0;
  sent = [];
  requests = [];
}

abbrev ready : Bridge
ready = bridge (authorize world 2 "s" lease (open_session world 1 "s" (init 0)).1).1

decode-first : decode_message (data_frame 0) ≡ ok (Message.output_data (envelope 0))
unfolding decode_message decode_root decode_typed decode_output_data identifier_of strip text_length
    has_exactly
decode-first = refl

decode-later : decode_message (data_frame 3) ≡ ok (Message.output_data (envelope 3))
unfolding decode_message decode_root decode_typed decode_output_data identifier_of strip text_length
    has_exactly
decode-later = refl

abbrev between : List Turn
between = arrived (at_time 12) (heartbeat_frame 1) none ∷ timed_out (at_time 20) ∷ []

frames_in_order_example : Before (pos 1) (pos 0) (pos 1) (pos 3)
unfolding loop turn dispatch control handle apply_envelope poll_expired authorize open_session
    decode_message decode_root decode_typed decode_output_data decode_heartbeat identifier_of strip
    text_length has_exactly
frames_in_order_example =
    frames_in_order world (at_time 10) (at_time 30) (data_frame 0) (data_frame 3) none none
      (envelope 0) (envelope 3) between ready decode-first decode-later refl refl refl

abbrev opening : SessionOpen
opening = record { session_id = "s" }

abbrev session : List Turn
session =
    beating 4 (record { session_id = "s"; sender = "windows"; sequence = pos 0 }) none
    ∷ arrived (at_time 5) authorize_frame none
    ∷ arrived (at_time 10) (data_frame 0) none
    ∷ arrived (at_time 11) (data_frame 0) none
    ∷ []

run_session-IsReleased_example :
    IsReleased (run_session world 1 50 none session opening (bridge (init 0))).1.gateway
unfolding open_session
run_session-IsReleased_example =
    run_session-IsReleased world 1 50 none session opening (bridge (init 0)) refl

-- Voice with a time to live of 100 keeps its owner at 10000 while frames arrive.
abbrev busy : List Turn
busy =
    arrived (at_time 10) (data_frame 0) none
    ∷ arrived (at_time 5000) (heartbeat_frame 1) none
    ∷ arrived (at_time 10000) (heartbeat_frame 2) none
    ∷ []

busy-owner : (at (loop world busy ready).1.gateway.resources voice_output).action_id ≡ some "a"
unfolding loop turn dispatch control handle apply_envelope poll_expired authorize open_session
    decode_message decode_root decode_typed decode_output_data decode_heartbeat identifier_of strip
    text_length has_exactly
busy-owner = refl

abbrev session_frame : Raw
session_frame = frame (
    object (
      field "type" (text "session.open")
        (field "version" (integer (pos 2)) (field "session_id" (text "s") no_fields))))

-- A connection that is refused, then one whose session ends with a replayed frame.
abbrev tries : List Attempt
tries =
    record {
      connect_raises = some "OSError: refused";
      hello_raises = none;
      first = none;
      input_raises = none;
      turns = [];
      start = 0;
      end = 0;
      is_stopping = false;
    }
    ∷ record {
      connect_raises = none;
      hello_raises = none;
      first = some session_frame;
      input_raises = none;
      turns = session;
      start = 1;
      end = 50;
      is_stopping = false;
    }
    ∷ []

bridge-IsClosed : IsClosed (bridge (init 0)).gateway
bridge-IsClosed = record { no_session = refl; voice_free = refl; body_free = refl }

attempts-IsClosed_example : IsClosed (attempts world "w" tries (bridge (init 0))).gateway
attempts-IsClosed_example = attempts-IsClosed world "w" tries (bridge (init 0)) bridge-IsClosed
