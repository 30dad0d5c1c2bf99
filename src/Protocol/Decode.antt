-- ===== src/Protocol/Decode.antt =====
-- `decode_message` of stream_protocol.py, from what `json.loads` makes of the raw message.
use vrc_agent.Prelude.Int.{pos, eqb_ℤ}
use vrc_agent.Prelude.{
  ℕ, ◌*◌, String, Bool, true, false, not, Option, none, some, List, [], ◌∷◌, nat_eq, string_eq,
  ◌==◌, ltb, if◌then◌else◌, ok, err,
}
use vrc_agent.Protocol.Messages.{
  Message, hello, session_open, authorize, output_neutralize, output_data, ack, output_completed,
  audio_chunk, screenshot_request, screenshot_response, heartbeat, ProtocolError,
  not_one_of_jpeg_and_error, not_object, not_boolean, bad_fields, bad_audio_format,
  unsupported_type, bad_version, too_large, not_utf8, not_json,
}
use vrc_agent.Protocol.Checks.{
  Checked, identifier, optional_text, plain_integer, positive, nonnegative, resource_from,
  completion_state, heartbeat_sender, failure_has_error, from_base64, audio_pcm, checked_jpeg,
}
use vrc_agent.Protocol.Encode.{protocol_version, max_message_bytes}
use vrc_agent.Json.{Value, null, boolean, integer, real, text, object, Fields, fields, has_exactly}
use vrc_agent.Prelude.Dict.{Dict, lookup}
use vrc_agent.Prelude.Checked.{◌>>=◌, ◌>>◌}

-- A raw message: its size in bytes, whether it is UTF-8, and its JSON value, if it is one.
pub record Raw : Type 0 where
  pub size : ℕ
  pub is_utf8 : Bool
  pub json : Option Value

abbrev pub Root : Type 0
Root = Dict String Value

-- `root.get(key)`, and `root[key]` once `_exact` has seen the key.
abbrev pub item : String → Root → Value
item key root = elim (lookup key root) [ none ↦ null | some v ↦ v ]

-- `_exact`, of "type", "version" and the other keys.
abbrev pub exact : List String → Root → Checked (Unit {0})
exact keys root = if has_exactly ("type" ∷ "version" ∷ keys) root then ok tt else err bad_fields

-- `_mapping`
abbrev pub mapping : Value → Checked Fields
mapping (object fs) = ok fs
mapping _ = err not_object

abbrev pub check : Bool → ProtocolError → Checked (Unit {0})
check good e = if good then ok tt else err e

-- `==` with a whole number: a float and a Boolean can be equal to one.
abbrev pub equals_number : ℕ → Value → Bool
equals_number k (integer n) = eqb_ℤ n (pos k)
equals_number k (real n) = eqb_ℤ n (pos (1000 * k))
equals_number k (boolean true) = k == 1
equals_number k (boolean false) = k == 0
equals_number k _ = false

abbrev pub equals_text : String → Value → Bool
equals_text s (text t) = t == s
equals_text s _ = false

unfoldable pub decode_hello : Root → Checked Message
unfolding has_exactly
decode_hello root = do
  exact ("client_instance_id" ∷ []) root
  id ← identifier "client_instance_id" (item "client_instance_id" root)
  ok (hello (record { client_instance_id = id }))

unfoldable pub decode_session_open : Root → Checked Message
unfolding has_exactly
decode_session_open root = do
  exact ("session_id" ∷ []) root
  id ← identifier "session_id" (item "session_id" root)
  ok (session_open (record { session_id = id }))

unfoldable pub decode_authorize : Root → Checked Message
unfolding has_exactly
decode_authorize root = do
  exact ("message_id" ∷ "session_id" ∷ "resource" ∷ "lease_token" ∷ "action_id" ∷ []) root
  message_id ← identifier "message_id" (item "message_id" root)
  session_id ← identifier "session_id" (item "session_id" root)
  r ← resource_from (item "resource" root)
  token ← positive "lease_token" (item "lease_token" root)
  action_id ← identifier "action_id" (item "action_id" root)
  ok (
      authorize (record {
        message_id = message_id;
        session_id = session_id;
        lease = record { resource = r; token = token; action_id = some action_id };
      }))

unfoldable pub decode_output_neutralize : Root → Checked Message
unfolding has_exactly
decode_output_neutralize root = do
  exact ("message_id" ∷ "session_id" ∷ "resource" ∷ "lease_token" ∷ []) root
  message_id ← identifier "message_id" (item "message_id" root)
  session_id ← identifier "session_id" (item "session_id" root)
  r ← resource_from (item "resource" root)
  token ← nonnegative "lease_token" (item "lease_token" root)
  ok (
      output_neutralize (record {
        message_id = message_id;
        session_id = session_id;
        resource = r;
        lease_token = token;
      }))

unfoldable pub decode_output_data : Root → Checked Message
unfolding has_exactly
decode_output_data root = do
  exact
      ("session_id" ∷ "action_id" ∷ "resource" ∷ "lease_token" ∷ "sequence" ∷ "ttl_ms" ∷ "payload"
        ∷ [])
      root
  session_id ← identifier "session_id" (item "session_id" root)
  action_id ← identifier "action_id" (item "action_id" root)
  r ← resource_from (item "resource" root)
  token ← positive "lease_token" (item "lease_token" root)
  sequence ← nonnegative "sequence" (item "sequence" root)
  ttl_ms ← positive "ttl_ms" (item "ttl_ms" root)
  payload ← mapping (item "payload" root)
  ok (
      output_data (record {
        session_id = session_id;
        action_id = action_id;
        resource = r;
        lease_token = token;
        sequence = sequence;
        ttl_ms = ttl_ms;
        payload = object payload;
      }))

abbrev pub boolean_from : Value → Checked Bool
boolean_from (boolean b) = ok b
boolean_from _ = err not_boolean

unfoldable pub decode_ack : Root → Checked Message
unfolding has_exactly
decode_ack root = do
  exact ("message_id" ∷ "accepted" ∷ "reason" ∷ []) root
  accepted ← boolean_from (item "accepted" root)
  message_id ← identifier "message_id" (item "message_id" root)
  reason ← optional_text "reason" (item "reason" root)
  ok (ack (record { message_id = message_id; accepted = accepted; reason = reason }))

unfoldable pub decode_output_completed : Root → Checked Message
unfolding has_exactly
decode_output_completed root = do
  exact ("session_id" ∷ "action_id" ∷ "resource" ∷ "lease_token" ∷ "state" ∷ "error" ∷ []) root
  state ← completion_state (item "state" root)
  error ← optional_text "error" (item "error" root)
  failure_has_error state error
  session_id ← identifier "session_id" (item "session_id" root)
  action_id ← identifier "action_id" (item "action_id" root)
  r ← resource_from (item "resource" root)
  token ← positive "lease_token" (item "lease_token" root)
  ok (
      output_completed (record {
        session_id = session_id;
        action_id = action_id;
        resource = r;
        lease_token = token;
        state = state;
        error = error;
      }))

unfoldable pub decode_audio_chunk : Root → Checked Message
unfolding has_exactly
decode_audio_chunk root = do
  exact
      ("session_id" ∷ "sequence" ∷ "captured_monotonic_ns" ∷ "sample_rate" ∷ "channels" ∷ "encoding"
        ∷ "pcm" ∷ [])
      root
  check (equals_number 16000 (item "sample_rate" root)) bad_audio_format
  check (equals_number 1 (item "channels" root)) bad_audio_format
  check (equals_text "pcm_s16le" (item "encoding" root)) bad_audio_format
  session_id ← identifier "session_id" (item "session_id" root)
  sequence ← nonnegative "sequence" (item "sequence" root)
  captured ← nonnegative "captured_monotonic_ns" (item "captured_monotonic_ns" root)
  bytes ← from_base64 (item "pcm" root)
  pcm ← audio_pcm bytes
  ok (
      audio_chunk (record {
        session_id = session_id;
        sequence = sequence;
        captured_ns = captured;
        pcm = pcm;
      }))

unfoldable pub decode_screenshot_request : Root → Checked Message
unfolding has_exactly
decode_screenshot_request root = do
  exact ("request_id" ∷ "session_id" ∷ []) root
  request_id ← identifier "request_id" (item "request_id" root)
  session_id ← identifier "session_id" (item "session_id" root)
  ok (screenshot_request (record { request_id = request_id; session_id = session_id }))

-- The picture and the error, of which exactly one is there.
abbrev pub jpeg_from : Value → Option String → Checked (Option (List ℕ))
jpeg_from null none = err not_one_of_jpeg_and_error
jpeg_from null (some e) = ok none
jpeg_from v (some e) = err not_one_of_jpeg_and_error
jpeg_from v none = do bytes ← from_base64 v; jpeg ← checked_jpeg bytes; ok (some jpeg)

unfoldable pub decode_screenshot_response : Root → Checked Message
unfolding has_exactly
decode_screenshot_response root = do
  exact ("request_id" ∷ "session_id" ∷ "jpeg" ∷ "error" ∷ []) root
  error ← optional_text "error" (item "error" root)
  jpeg ← jpeg_from (item "jpeg" root) error
  request_id ← identifier "request_id" (item "request_id" root)
  session_id ← identifier "session_id" (item "session_id" root)
  ok (
      screenshot_response
        (record { request_id = request_id; session_id = session_id; jpeg = jpeg; error = error }))

unfoldable pub decode_heartbeat : Root → Checked Message
unfolding has_exactly
decode_heartbeat root = do
  exact ("session_id" ∷ "sender" ∷ "sequence" ∷ []) root
  sender ← heartbeat_sender (item "sender" root)
  session_id ← identifier "session_id" (item "session_id" root)
  sequence ← nonnegative "sequence" (item "sequence" root)
  ok (heartbeat (record { session_id = session_id; sender = sender; sequence = sequence }))

-- The message by its type.
unfoldable pub decode_typed : Root → Value → Checked Message
unfolding decode_hello decode_session_open decode_authorize decode_output_neutralize
    decode_output_data decode_ack decode_output_completed decode_audio_chunk
    decode_screenshot_request decode_screenshot_response decode_heartbeat
decode_typed root (text t) =
    if t == "hello"
    then decode_hello root
    else if t == "session.open"
    then decode_session_open root
    else if t == "output.authorize"
    then decode_authorize root
    else if t == "output.neutralize"
    then decode_output_neutralize root
    else if t == "output.data"
    then decode_output_data root
    else if t == "ack"
    then decode_ack root
    else if t == "output.completed"
    then decode_output_completed root
    else if t == "audio.chunk"
    then decode_audio_chunk root
    else if t == "screenshot.request"
    then decode_screenshot_request root
    else if t == "screenshot.response"
    then decode_screenshot_response root
    else if t == "heartbeat"
    then decode_heartbeat root
    else err unsupported_type
decode_typed root _ = err unsupported_type

unfoldable pub decode_root : Value → Checked Message
unfolding decode_typed
decode_root v = do
  fs ← mapping v
  let root = fields fs
  version ← plain_integer "version" (item "version" root)
  check (eqb_ℤ version (pos protocol_version)) bad_version
  decode_typed root (item "type" root)

unfoldable pub decode_message : Raw → Checked Message
unfolding decode_root
decode_message raw = do
  check (not (ltb max_message_bytes raw.size)) too_large
  check raw.is_utf8 not_utf8
  v ← elim raw.json [ none ↦ err not_json | some v ↦ ok v ]
  decode_root v
