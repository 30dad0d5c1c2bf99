-- ===== src/Protocol/Shapes.antt =====
-- What each short payload of stream_protocol.py is read as.
use vrc_agent.Prelude.{◌≡◌, refl, nat_eq, string_eq, strip, ok, err}
use mathlib.Core.Option
use vrc_agent.Protocol.Messages.{
  Message, hello, session_open, authorize, output_neutralize, output_data, ack, output_completed,
  audio_chunk, screenshot_request, screenshot_response, heartbeat, Hello, SessionOpen, Authorize,
  OutputNeutralize, Ack, ScreenshotRequest, Heartbeat,
}
use vrc_agent.Protocol.Checks.{
  Checked, identifier, optional_text, positive, nonnegative, heartbeat_sender,
}
use vrc_agent.Protocol.Encode.{
  or_null, action_id_value, payload_hello, payload_session_open, payload_authorize,
  payload_output_neutralize, payload_ack, payload_screenshot_request, payload_heartbeat,
}
use vrc_agent.Protocol.Decode.{
  decode_root, decode_typed, decode_hello, decode_session_open, decode_authorize,
  decode_output_neutralize, decode_ack, decode_screenshot_request, decode_heartbeat,
}
use vrc_agent.Json.{Value, integer, text, has_exactly}
use vrc_agent.Prelude.Checked.{◌>>=◌}
use vrc_agent.Protocol.Again.{
  identifier-again, optional-again, positive-again, nonnegative-again, resource-again,
  action_id-again, sender-again,
}

-- `strip` of each text that is stripped.
unfoldable pub clean : Message → Message
clean (hello m) = hello (record { client_instance_id = strip m.client_instance_id })
clean (session_open m) = session_open (record { session_id = strip m.session_id })
clean (authorize m) = authorize (record {
  message_id = strip m.message_id;
  session_id = strip m.session_id;
  lease = record m.lease { action_id = Option.map strip m.lease.action_id };
})
clean (output_neutralize m) =
    output_neutralize
      (record m { message_id = strip m.message_id; session_id = strip m.session_id })
clean (output_data m) =
    output_data (record m { session_id = strip m.session_id; action_id = strip m.action_id })
clean (ack m) =
    ack (record m { message_id = strip m.message_id; reason = Option.map strip m.reason })
clean (output_completed m) = output_completed (record m {
  session_id = strip m.session_id;
  action_id = strip m.action_id;
  error = Option.map strip m.error;
})
clean (audio_chunk m) = audio_chunk (record m { session_id = strip m.session_id })
clean (screenshot_request m) =
    screenshot_request (record { request_id = strip m.request_id; session_id = strip m.session_id })
clean (screenshot_response m) = screenshot_response (record m {
  request_id = strip m.request_id;
  session_id = strip m.session_id;
  error = Option.map strip m.error;
})
clean (heartbeat m) = heartbeat (record m { session_id = strip m.session_id })

-- Where a payload was made, it is read as the message.
abbrev pub Round : Message → Checked Value → Type 0
Round m (ok v) = decode_root v ≡ ok m
Round m (err e) = Unit

pub through :
    {A : Type 0} (m : Message) (r : Checked A) (f : A → Checked Value)
    → ((a : A) → r ≡ ok a → Round m (f a))
    → Round m (r >>= f)
through m (ok a) f k = k a refl
through m (err e) f k = tt

pub hello-Round : (m : Hello) → Round (clean (hello m)) (payload_hello m)
unfolding clean payload_hello decode_root decode_typed decode_hello has_exactly
hello-Round m = through _ (identifier "client_instance_id" (text m.client_instance_id)) _ λ id e.
    let (same, again) = identifier-again "client_instance_id" m.client_instance_id id e in
    rw again (rw same refl)

pub session_open-Round : (m : SessionOpen) → Round (clean (session_open m)) (payload_session_open m)
unfolding clean payload_session_open decode_root decode_typed decode_session_open has_exactly
session_open-Round m = through _ (identifier "session_id" (text m.session_id)) _ λ id e0.
    let (same0, again0) = identifier-again "session_id" m.session_id id e0 in
    rw (again0, same0) refl

pub output_neutralize-Round :
    (m : OutputNeutralize) → Round (clean (output_neutralize m)) (payload_output_neutralize m)
unfolding clean payload_output_neutralize decode_root decode_typed decode_output_neutralize
    has_exactly
output_neutralize-Round m =
    through _ (nonnegative "lease_token" (integer m.lease_token)) _ λ token e0.
      let (same0, again0) = nonnegative-again "lease_token" m.lease_token token e0 in
      through _ (identifier "message_id" (text m.message_id)) _ λ message_id e1.
        let (same1, again1) = identifier-again "message_id" m.message_id message_id e1 in
        through _ (identifier "session_id" (text m.session_id)) _ λ session_id e2.
          let (same2, again2) = identifier-again "session_id" m.session_id session_id e2 in
          let r3 = resource-again m.resource in
          rw (again0, same0, again1, same1, again2, same2, r3) refl

pub authorize-Round : (m : Authorize) → Round (clean (authorize m)) (payload_authorize m)
unfolding clean payload_authorize decode_root decode_typed decode_authorize has_exactly
authorize-Round m = through _ (positive "lease_token" (integer m.lease.token)) _ λ token e0.
    let (same0, again0) = positive-again "lease_token" m.lease.token token e0 in
    through _ (identifier "action_id" (action_id_value m.lease.action_id)) _ λ action_id e1.
      let (same1, again1) = action_id-again m.lease.action_id action_id e1 in
      through _ (identifier "message_id" (text m.message_id)) _ λ message_id e2.
        let (same2, again2) = identifier-again "message_id" m.message_id message_id e2 in
        through _ (identifier "session_id" (text m.session_id)) _ λ session_id e3.
          let (same3, again3) = identifier-again "session_id" m.session_id session_id e3 in
          rw
            (
              again0,
              same0,
              again1,
              same1,
              again2,
              same2,
              again3,
              same3,
              resource-again m.lease.resource,
            )
            refl

pub ack-Round : (m : Ack) → Round (clean (ack m)) (payload_ack m)
unfolding clean payload_ack decode_root decode_typed decode_ack has_exactly
ack-Round m = through _ (identifier "message_id" (text m.message_id)) _ λ message_id e0.
    let (same0, again0) = identifier-again "message_id" m.message_id message_id e0 in
    through _ (optional_text "reason" (or_null m.reason)) _ λ reason e1.
      let (same1, again1) = optional-again "reason" m.reason reason e1 in
      rw (again0, same0, again1, same1) refl

pub screenshot_request-Round :
    (m : ScreenshotRequest) → Round (clean (screenshot_request m)) (payload_screenshot_request m)
unfolding clean payload_screenshot_request decode_root decode_typed decode_screenshot_request
    has_exactly
screenshot_request-Round m =
    through _ (identifier "request_id" (text m.request_id)) _ λ request_id e0.
      let (same0, again0) = identifier-again "request_id" m.request_id request_id e0 in
      through _ (identifier "session_id" (text m.session_id)) _ λ session_id e1.
        let (same1, again1) = identifier-again "session_id" m.session_id session_id e1 in
        rw (again0, same0, again1, same1) refl

pub heartbeat-Round : (m : Heartbeat) → Round (clean (heartbeat m)) (payload_heartbeat m)
unfolding clean payload_heartbeat decode_root decode_typed decode_heartbeat has_exactly
heartbeat-Round m = through _ (heartbeat_sender (text m.sender)) _ λ sender e0.
    let (same0, again0) = sender-again m.sender sender e0 in
    through _ (identifier "session_id" (text m.session_id)) _ λ session_id e1.
      let (same1, again1) = identifier-again "session_id" m.session_id session_id e1 in
      through _ (nonnegative "sequence" (integer m.sequence)) _ λ sequence e2.
        let (same2, again2) = nonnegative-again "sequence" m.sequence sequence e2 in
        rw (again0, same0, again1, same1, again2, same2) refl
