-- ===== src/Input.antt =====
-- `WindowsInputTransport` of vrc_ardy_agent/windows_input_transport.py: live audio, screenshots and
-- heartbeats for the bridge session that is open. Its methods call the sender and the screenshot
-- provider outside the lock, so each locked region and each such call is a step of its own
-- (Input/Threads.antt); `now` is the clock's reading in a region. Bytes are lists of numbers.
use vrc_agent.Prelude.Int.{ℤ, pos, ltb_ℤ}
use vrc_agent.Prelude.{
  nat_eq, ok, is_none, ◌%◌, ◌||◌, not, ltb, err, ◌==◌, false, is_empty, length, true, strip,
  string_eq, is_value, ◌+◌, Method, some, Bool, none, if◌then◌else◌, String, ℕ, Option, List,
}
pub mod Threads
pub mod Counting
pub mod Numbering
pub mod Delivery
mod Tests

-- `MAX_AUDIO_CHUNK_BYTES`
abbrev pub max_chunk_bytes : ℕ
max_chunk_bytes = 131072

-- The callable that an `open_session` gave: for which session, and in which of these calls.
pub record Sender : Type 0 where
  pub opened_for : String
  pub number : ℕ

pub record AudioChunk : Type 0 where
  pub session_id : String
  pub sequence : ℕ
  pub captured_ns : ℤ
  pub pcm : List ℕ

pub record ScreenshotRequest : Type 0 where
  pub request_id : String
  pub session_id : String

-- The error texts, with the exception's type and text; `first_1000` is the text's slice.
pub data Note : Type 0 where
  audio_send_failed capture_failed response_send_failed : String → Note
  first_1000 : Note → Note

pub record ScreenshotResponse : Type 0 where
  pub request_id : String
  pub session_id : String
  pub jpeg : Option (List ℕ)
  pub error : Option Note

pub record Beat : Type 0 where
  pub session_id : String
  pub sequence : ℕ

pub data Message : Type 0 where
  audio_message : AudioChunk → Message
  response_message : ScreenshotResponse → Message
  beat_message : Beat → Message

pub record Transport : Type 0 where
  pub session_id : Option String
  pub sender : Option Sender
  pub next_audio_sequence : ℕ
  pub audio_chunks_sent : ℕ
  pub audio_chunks_dropped : ℕ
  pub screenshots_sent : ℕ
  pub heartbeat_sequence : ℕ
  pub heartbeat : ℕ
  pub last_error : Option Note

pub data InputError : Type 0 where
  empty_session_id already_open empty_pcm bad_pcm_length negative_capture not_current_session :
      InputError

abbrev pub init : ℕ → Transport
init now = record {
  session_id = none;
  sender = none;
  next_audio_sequence = 0;
  audio_chunks_sent = 0;
  audio_chunks_dropped = 0;
  screenshots_sent = 0;
  heartbeat_sequence = 0;
  heartbeat = now;
  last_error = none;
}

unfoldable pub touch : ℕ → Transport → Transport
touch now t = record t { heartbeat = now }

-- `number` tells the call's sender from those of other calls.
unfoldable pub open_session : ℕ → String → ℕ → Method Transport InputError (Unit {0})
open_session now raw number t =
    let id = strip raw in
    if is_empty id
    then (err empty_session_id, t)
    else if not (is_none t.session_id)
    then (err already_open, t)
    else (
      ok tt,
      record t {
        session_id = some id;
        sender = some (record { opened_for = id; number = number });
        next_audio_sequence = 0;
        heartbeat_sequence = 0;
        last_error = none;
        heartbeat = now;
      },
    )

unfoldable pub close_session : ℕ → String → Transport → Bool × Transport
close_session now id t =
    if is_value id t.session_id
    then (
      true,
      record t {
        session_id = none;
        sender = none;
        next_audio_sequence = 0;
        heartbeat_sequence = 0;
        heartbeat = now;
      },
    )
    else (false, t)

-- The session and its sender, where both are set.
abbrev pub live : Option String → Option Sender → Option (String × Sender)
live (some id) (some sender) = some (id, sender)
live _ _ = none

abbrev pub audio_error : List ℕ → ℤ → Option InputError
audio_error pcm captured =
    if length pcm == 0
    then some empty_pcm
    else if ltb max_chunk_bytes (length pcm) || not (length pcm % 2 == 0)
    then some bad_pcm_length
    else if ltb_ℤ captured (pos 0)
    then some negative_capture
    else none

-- The first locked region of `publish_audio`: the chunk takes its number, or is dropped.
unfoldable pub take_chunk :
    ℕ → List ℕ → ℤ → Transport → Option (String × Sender) → Option (Sender × AudioChunk) × Transport
unfolding touch
take_chunk now pcm captured t none =
    (none, touch now (record t { audio_chunks_dropped = t.audio_chunks_dropped + 1 }))
take_chunk now pcm captured t (some (id, sender)) = (
  some (
    sender,
    record { session_id = id; sequence = t.next_audio_sequence; captured_ns = captured; pcm = pcm },
  ),
  record t { next_audio_sequence = t.next_audio_sequence + 1 },
)

-- The same of `send_heartbeat`.
unfoldable pub take_beat : Transport → Option (String × Sender) → Option (Sender × Beat) × Transport
take_beat t none = (none, t)
take_beat t (some (id, sender)) = (
  some (sender, record { session_id = id; sequence = t.heartbeat_sequence }),
  record t { heartbeat_sequence = t.heartbeat_sequence + 1 },
)

-- `_record_error`
unfoldable pub record_error : ℕ → Note → Transport → Transport
unfolding touch
record_error now note t = touch now (record t { last_error = some note })

unfoldable pub count_sent : ℕ → Transport → Transport
unfolding touch
count_sent now t = touch now (record t { audio_chunks_sent = t.audio_chunks_sent + 1 })

unfoldable pub count_screenshot : ℕ → Transport → Transport
unfolding touch
count_screenshot now t = touch now (record t { screenshots_sent = t.screenshots_sent + 1 })

-- The request is for the session that is open.
unfoldable pub request_sender : ScreenshotRequest → Transport → Option Sender
request_sender q t = if is_value q.session_id t.session_id then t.sender else none
