-- ===== src/Protocol/Messages.antt =====
-- The messages of stream_protocol.py; numbers are signed until they are checked, and `bytes` are lists
-- of numbers.
use vrc_agent.Prelude.Int.{ℤ}
use vrc_agent.Prelude.{ℕ, String, Bool, Option, List, nat_eq, string_eq}
use vrc_agent.Contracts.{ControlResource, SignedLease, OutputEnvelope}

pub record Hello : Type 0 where
  pub client_instance_id : String

pub record SessionOpen : Type 0 where
  pub session_id : String

pub record Authorize : Type 0 where
  pub message_id : String
  pub session_id : String
  pub lease : SignedLease

pub record OutputNeutralize : Type 0 where
  pub message_id : String
  pub session_id : String
  pub resource : ControlResource
  pub lease_token : ℤ

pub record Ack : Type 0 where
  pub message_id : String
  pub accepted : Bool
  pub reason : Option String

pub record OutputCompleted : Type 0 where
  pub session_id : String
  pub action_id : String
  pub resource : ControlResource
  pub lease_token : ℤ
  pub state : String
  pub error : Option String

pub record AudioChunk : Type 0 where
  pub session_id : String
  pub sequence : ℤ
  pub captured_ns : ℤ
  pub pcm : List ℕ

pub record ScreenshotRequest : Type 0 where
  pub request_id : String
  pub session_id : String

pub record ScreenshotResponse : Type 0 where
  pub request_id : String
  pub session_id : String
  pub jpeg : Option (List ℕ)
  pub error : Option String

pub record Heartbeat : Type 0 where
  pub session_id : String
  pub sender : String
  pub sequence : ℤ

pub data Message : Type 0 where
  hello : Hello → Message
  session_open : SessionOpen → Message
  authorize : Authorize → Message
  output_neutralize : OutputNeutralize → Message
  output_data : OutputEnvelope → Message
  ack : Ack → Message
  output_completed : OutputCompleted → Message
  audio_chunk : AudioChunk → Message
  screenshot_request : ScreenshotRequest → Message
  screenshot_response : ScreenshotResponse → Message
  heartbeat : Heartbeat → Message

-- The templates of the error texts, with the field's name; `type_error` is Python's own `TypeError`.
pub data ProtocolError : Type 0 where
  not_text bad_text too_long not_integer not_positive negative : String → ProtocolError
  bad_resource bad_completion failed_without_error bad_base64 empty_base64 : ProtocolError
  empty_pcm long_pcm odd_pcm empty_jpeg long_jpeg bad_jpeg not_one_of_jpeg_and_error : ProtocolError
  not_object not_boolean bad_sender bad_fields bad_audio_format : ProtocolError
  no_type unsupported_type bad_version : ProtocolError
  too_large not_utf8 not_json type_error : ProtocolError
