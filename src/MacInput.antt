-- ===== src/MacInput.antt =====
-- `MacInputTransport` of vrc_ardy_agent/mac_input_transport.py: ordered audio, one picture for each
-- request, and the heartbeats of the other machine. The audio handler and the sender are called, and a
-- picture is awaited, outside the lock, so each locked region is an operation of its own here and a step
-- in MacInput/Threads.antt; `now` is the clock's reading in a region.
pub mod Threads
pub mod Ordering
pub mod Holding
pub mod Receiving
pub mod Requests
mod Tests
use vrc_agent.Prelude.Int.{ℤ, pos, negsuc, pos_part, neg_part, ltb_ℤ, leb_ℤ, eqb_ℤ, ◌≤ℤ◌, ◌<ℤ◌}
use vrc_agent.Prelude.{
  ℕ, zero, suc, ◌+◌, ◌-◌, ◌*◌, ◌/◌, ◌%◌, ◌≤◌, ◌<◌, max, String, ◌≡◌, ◌≢◌, ◌↔◌, ◌⊎◌, inl, inr, refl,
  sym, ap, ◌∙◌, subst, Bool, true, false, not, ◌&&◌, ◌||◌, Option, none, some, List, [], ◌∷◌, ◌++◌,
  map, reverse, arith, Eq, nat_eq, string_eq, ◌==◌, nat_beq, ltb, leb, if◌then◌else◌, is_value,
  is_value_iff, is_none, is_empty, eq_iff, eq_self, Bool-cases, Option-cases, strip, length,
  get_elem?, All, keep_last, append_bounded, Result, ok, err, Method, returned,
}
use vrc_agent.Protocol.Messages.{
  Message, audio_chunk, screenshot_response, heartbeat, AudioChunk, ScreenshotRequest,
  ScreenshotResponse, Heartbeat,
}
use vrc_agent.Input.{Sender, live}
use vrc_agent.Waiting.{Pending, Table, empty, fail_entries, fail_all, change, enter, leave}
use vrc_agent.Prelude.Dict.{Dict, lookup, insert, erase}
use mathlib.Core.Option

-- The error texts, with the exception's type and text; `told` is a text from outside.
pub data Note : Type 0 where
  audio_handler_failed request_send_failed request_timed_out told : String → Note

-- The objects of the table `pending` are shared with the threads that wait for them.
pub record Receiver : Type 0 where
  pub session_id : Option String
  pub sender : Option Sender
  pub pending : Table String ScreenshotResponse Note
  pub last_audio_sequence : Option ℤ
  pub audio_chunks_received : ℕ
  pub missing_audio_chunks : ℕ
  pub screenshots_received : ℕ
  pub stale_messages_received : ℕ
  pub remote_heartbeat_sequence : Option ℤ
  pub heartbeat : ℕ
  pub last_error : Option Note

pub data ReceiverError : Type 0 where
  empty_session_id session_already_open empty_reason bad_request_id disconnected already_pending :
      ReceiverError

abbrev pub init : ℕ → Receiver
init now = record {
  session_id = none;
  sender = none;
  pending = empty;
  last_audio_sequence = none;
  audio_chunks_received = 0;
  missing_audio_chunks = 0;
  screenshots_received = 0;
  stale_messages_received = 0;
  remote_heartbeat_sequence = none;
  heartbeat = now;
  last_error = none;
}

-- `_touch_locked`
abbrev pub touch : ℕ → Receiver → Receiver
touch now r = record r { heartbeat = now }

abbrev pub stale : ℕ → Receiver → Receiver
stale now r = touch now (record r { stale_messages_received = r.stale_messages_received + 1 })

unfoldable pub open_session : ℕ → String → ℕ → Method Receiver ReceiverError (Unit {0})
open_session now raw number r =
    let id = strip raw in
    if is_empty id
    then (err empty_session_id, r)
    else if not (is_none r.session_id)
    then (err session_already_open, r)
    else (
      ok tt,
      touch now (record r {
        session_id = some id;
        sender = some (record { opened_for = id; number = number });
        last_audio_sequence = none;
        remote_heartbeat_sequence = none;
        last_error = none;
      }),
    )

unfoldable pub close_session : ℕ → String → String → Method Receiver ReceiverError Bool
unfolding fail_entries
close_session now id raw r =
    let reason = told (strip raw) in
    if is_empty (strip raw)
    then (err empty_reason, r)
    else if not (is_value id r.session_id)
    then (ok false, r)
    else (
      ok true,
      touch now (record r {
        session_id = none;
        sender = none;
        last_audio_sequence = none;
        remote_heartbeat_sequence = none;
        last_error = some reason;
        pending = fail_all reason r.pending;
      }),
    )

-- How far `b` is above `a`, where it is.
abbrev pub above : ℤ → ℤ → ℕ
above a b = pos_part b + neg_part a - (pos_part a + neg_part b)

-- The chunks that are missing between the last one and this.
abbrev pub missing : Option ℤ → ℤ → ℕ
missing none sequence = 0
missing (some previous) sequence =
    if ltb 1 (above previous sequence) then above previous sequence - 1 else 0

-- `previous is not None and sequence <= previous`
abbrev pub not_newer : Option ℤ → ℤ → Bool
not_newer none sequence = false
not_newer (some previous) sequence = leb_ℤ sequence previous

-- The locked region of `_receive_audio`: whether the chunk is for the handler.
unfoldable pub take_audio : ℕ → AudioChunk → Receiver → Bool × Receiver
take_audio now m r =
    if not (is_value m.session_id r.session_id) || not_newer r.last_audio_sequence m.sequence
    then (false, stale now r)
    else (
      true,
      touch now (record r {
        missing_audio_chunks = r.missing_audio_chunks + missing r.last_audio_sequence m.sequence;
        last_audio_sequence = some m.sequence;
        audio_chunks_received = r.audio_chunks_received + 1;
      }),
    )

abbrev pub with_response :
    ScreenshotResponse
    → Pending String ScreenshotResponse Note
    → Pending String ScreenshotResponse Note
with_response m p = record p { response = some m; error = Option.map told m.error; is_set = true }

-- The response for the pending object that the table has, if it has one.
abbrev pub answer_pending : ℕ → ScreenshotResponse → Receiver → Option ℕ → Bool × Receiver
answer_pending now m r none = (false, stale now r)
answer_pending now m r (some n) = (
  true,
  touch now (record r {
    pending = change n (with_response m) r.pending;
    screenshots_received = r.screenshots_received + 1;
  }),
)

-- `_receive_screenshot`
unfoldable pub take_response : ℕ → ScreenshotResponse → Receiver → Bool × Receiver
take_response now m r =
    if not (is_value m.session_id r.session_id)
    then (false, stale now r)
    else answer_pending now m r (lookup m.request_id r.pending.entries)

-- `_receive_heartbeat`
unfoldable pub take_heartbeat : ℕ → Heartbeat → Receiver → Bool × Receiver
take_heartbeat now m r =
    if not (is_value m.session_id r.session_id)
      || not (m.sender == "windows")
      || not_newer r.remote_heartbeat_sequence m.sequence
    then (false, stale now r)
    else (true, touch now (record r { remote_heartbeat_sequence = some m.sequence }))

-- The request's object enters the table.
abbrev pub enter_request :
    String
    → Receiver
    → Option (String × Sender)
    → Result ReceiverError (Sender × ScreenshotRequest) × Receiver
enter_request id r none = (err disconnected, r)
enter_request id r (some (session, sender)) =
    if not (is_none (lookup id r.pending.entries)) then (err already_pending, r) else (
      ok (sender, record { request_id = id; session_id = session }),
      record r { pending = enter id r.pending },
    )

-- `request_screenshot` up to the end of its first locked region, with what `request_id_factory` gave.
unfoldable pub take_request : String → Method Receiver ReceiverError (Sender × ScreenshotRequest)
take_request id r =
    if is_empty id then (err bad_request_id, r) else enter_request id r (live r.session_id r.sender)

-- The `finally` of `request_screenshot`: the entry goes if it is still this object.
unfoldable pub leave_request : ℕ → String → ℕ → Receiver → Receiver
leave_request now id n r = touch now (record r { pending = leave id n r.pending })

-- `_record_error`
abbrev pub record_error : ℕ → Note → Receiver → Receiver
record_error now note r = touch now (record r { last_error = some note })
