-- ===== src/Protocol/Encode.antt =====
-- `encode_message` of stream_protocol.py, up to the text: the object that `json.dumps` is given, within
-- the size limit. `json.dumps` writes every such object.
use vrc_agent.Protocol.Messages.{
  Message, hello, session_open, authorize, output_neutralize, output_data, ack, output_completed,
  audio_chunk, screenshot_request, screenshot_response, heartbeat, Hello, SessionOpen, Authorize,
  OutputNeutralize, Ack, OutputCompleted, AudioChunk, ScreenshotRequest, ScreenshotResponse,
  Heartbeat, not_one_of_jpeg_and_error, not_object, too_large,
}
use vrc_agent.Protocol.Checks.{
  Checked, identifier, optional_text, positive, nonnegative, resource_text, completion_state,
  heartbeat_sender, failure_has_error, audio_pcm, checked_jpeg,
}
use vrc_agent.Protocol.Base64.{b64encode}
use vrc_agent.Protocol.Size.{dumped_size}
use vrc_agent.Contracts.{OutputEnvelope}
use vrc_agent.Prelude.Checked.{◌>>=◌, ◌>>◌}
use vrc_agent.Json.{Value, null, boolean, integer, text, object, Fields, no_fields, field}
use vrc_agent.Prelude.Int.{pos}
use vrc_agent.Prelude.{
  ℕ, String, Option, none, some, List, nat_eq, string_eq, ltb, if◌then◌else◌, ok, err,
}

abbrev pub protocol_version : ℕ
protocol_version = 2

abbrev pub max_message_bytes : ℕ
max_message_bytes = 16777216

-- What every payload starts with.
abbrev pub typed : String → Fields → Value
typed kind rest =
    object (field "type" (text kind) (field "version" (integer (pos protocol_version)) rest))

abbrev pub or_null : Option String → Value
or_null none = null
or_null (some t) = text t

abbrev pub jpeg_or_null : Option (List ℕ) → Checked Value
jpeg_or_null none = ok null
jpeg_or_null (some jpeg) = do bytes ← checked_jpeg jpeg; ok (text (b64encode bytes))

-- `(jpeg is None) == (error is None)`
abbrev pub exactly_one : {A : Type 0} → Option A → Option String → Checked (Unit {0})
exactly_one none none = err not_one_of_jpeg_and_error
exactly_one (some a) (some e) = err not_one_of_jpeg_and_error
exactly_one _ _ = ok tt

abbrev pub payload_object : Value → Checked Fields
payload_object (object fs) = ok fs
payload_object _ = err not_object

abbrev pub action_id_value : Option String → Value
action_id_value none = null
action_id_value (some id) = text id

unfoldable pub payload_hello : Hello → Checked Value
payload_hello m = do
  id ← identifier "client_instance_id" (text m.client_instance_id)
  ok (typed "hello" (field "client_instance_id" (text id) no_fields))

unfoldable pub payload_session_open : SessionOpen → Checked Value
payload_session_open m = do
  id ← identifier "session_id" (text m.session_id)
  ok (typed "session.open" (field "session_id" (text id) no_fields))

unfoldable pub payload_authorize : Authorize → Checked Value
payload_authorize m = do
  token ← positive "lease_token" (integer m.lease.token)
  action_id ← identifier "action_id" (action_id_value m.lease.action_id)
  message_id ← identifier "message_id" (text m.message_id)
  session_id ← identifier "session_id" (text m.session_id)
  ok (
      typed "output.authorize" (
        field "message_id" (text message_id) (
          field "session_id" (text session_id) (
            field "resource" (text (resource_text m.lease.resource)) (
              field "lease_token" (integer token)
                (field "action_id" (text action_id) no_fields))))))

unfoldable pub payload_output_neutralize : OutputNeutralize → Checked Value
payload_output_neutralize m = do
  token ← nonnegative "lease_token" (integer m.lease_token)
  message_id ← identifier "message_id" (text m.message_id)
  session_id ← identifier "session_id" (text m.session_id)
  ok (
      typed "output.neutralize" (
        field "message_id" (text message_id) (
          field "session_id" (text session_id) (
            field "resource" (text (resource_text m.resource))
              (field "lease_token" (integer token) no_fields)))))

unfoldable pub payload_output_data : OutputEnvelope → Checked Value
payload_output_data m = do
  token ← positive "lease_token" (integer m.lease_token)
  sequence ← nonnegative "sequence" (integer m.sequence)
  ttl_ms ← positive "ttl_ms" (integer m.ttl_ms)
  payload ← payload_object m.payload
  session_id ← identifier "session_id" (text m.session_id)
  action_id ← identifier "action_id" (text m.action_id)
  ok (
      typed "output.data" (
        field "session_id" (text session_id) (
          field "action_id" (text action_id) (
            field "resource" (text (resource_text m.resource)) (
              field "lease_token" (integer token) (
                field "sequence" (integer sequence) (
                  field "ttl_ms" (integer ttl_ms)
                    (field "payload" (object payload) no_fields))))))))

unfoldable pub payload_ack : Ack → Checked Value
payload_ack m = do
  message_id ← identifier "message_id" (text m.message_id)
  reason ← optional_text "reason" (or_null m.reason)
  ok (
      typed "ack" (
        field "message_id" (text message_id)
          (field "accepted" (boolean m.accepted) (field "reason" (or_null reason) no_fields))))

unfoldable pub payload_output_completed : OutputCompleted → Checked Value
payload_output_completed m = do
  state ← completion_state (text m.state)
  error ← optional_text "error" (or_null m.error)
  failure_has_error state error
  token ← positive "lease_token" (integer m.lease_token)
  session_id ← identifier "session_id" (text m.session_id)
  action_id ← identifier "action_id" (text m.action_id)
  ok (
      typed "output.completed" (
        field "session_id" (text session_id) (
          field "action_id" (text action_id) (
            field "resource" (text (resource_text m.resource)) (
              field "lease_token" (integer token)
                (field "state" (text state) (field "error" (or_null error) no_fields)))))))

unfoldable pub payload_audio_chunk : AudioChunk → Checked Value
payload_audio_chunk m = do
  pcm ← audio_pcm m.pcm
  session_id ← identifier "session_id" (text m.session_id)
  sequence ← nonnegative "sequence" (integer m.sequence)
  captured ← nonnegative "captured_monotonic_ns" (integer m.captured_ns)
  ok (
      typed "audio.chunk" (
        field "session_id" (text session_id) (
          field "sequence" (integer sequence) (
            field "captured_monotonic_ns" (integer captured) (
              field "sample_rate" (integer (pos 16000)) (
                field "channels" (integer (pos 1)) (
                  field "encoding" (text "pcm_s16le")
                    (field "pcm" (text (b64encode pcm)) no_fields))))))))

unfoldable pub payload_screenshot_request : ScreenshotRequest → Checked Value
payload_screenshot_request m = do
  request_id ← identifier "request_id" (text m.request_id)
  session_id ← identifier "session_id" (text m.session_id)
  ok (
      typed "screenshot.request"
        (field "request_id" (text request_id) (field "session_id" (text session_id) no_fields)))

unfoldable pub payload_screenshot_response : ScreenshotResponse → Checked Value
payload_screenshot_response m = do
  error ← optional_text "error" (or_null m.error)
  exactly_one m.jpeg error
  jpeg ← jpeg_or_null m.jpeg
  request_id ← identifier "request_id" (text m.request_id)
  session_id ← identifier "session_id" (text m.session_id)
  ok (
      typed "screenshot.response" (
        field "request_id" (text request_id) (
          field "session_id" (text session_id)
            (field "jpeg" jpeg (field "error" (or_null error) no_fields)))))

unfoldable pub payload_heartbeat : Heartbeat → Checked Value
payload_heartbeat m = do
  sender ← heartbeat_sender (text m.sender)
  session_id ← identifier "session_id" (text m.session_id)
  sequence ← nonnegative "sequence" (integer m.sequence)
  ok (
      typed "heartbeat" (
        field "session_id" (text session_id)
          (field "sender" (text sender) (field "sequence" (integer sequence) no_fields))))

unfoldable pub payload_of : Message → Checked Value
payload_of (hello m) = payload_hello m
payload_of (session_open m) = payload_session_open m
payload_of (authorize m) = payload_authorize m
payload_of (output_neutralize m) = payload_output_neutralize m
payload_of (output_data m) = payload_output_data m
payload_of (ack m) = payload_ack m
payload_of (output_completed m) = payload_output_completed m
payload_of (audio_chunk m) = payload_audio_chunk m
payload_of (screenshot_request m) = payload_screenshot_request m
payload_of (screenshot_response m) = payload_screenshot_response m
payload_of (heartbeat m) = payload_heartbeat m

-- The size check behind `json.dumps`.
abbrev pub within_size : Value → Checked Value
within_size v = if ltb max_message_bytes (dumped_size v) then err too_large else ok v

unfoldable pub encode_message : Message → Checked Value
unfolding payload_of
encode_message m = payload_of m >>= within_size
