-- ===== src/WindowsBridge.antt =====
-- `_run_connection` of vrc_ardy_agent/windows_bridge_client.py, from the first message on: what the
-- connection receives goes through the protocol to the output controller, until the loop ends, and then
-- the session is closed. The input transport is outside here (Input/Threads.antt has its threads): what
-- it raises and the heartbeats that it sends are given, and the screenshot requests that it takes are
-- listed, its answers to them left out.
use vrc_agent.Prelude.Int.{ℤ, pos, negsuc, pos_part, neg_part, ltb_ℤ, leb_ℤ, eqb_ℤ, ◌≤ℤ◌, ◌<ℤ◌}
use vrc_agent.Prelude.{
  ℕ, zero, suc, ◌+◌, ◌-◌, ◌*◌, ◌/◌, ◌%◌, ◌≤◌, ◌<◌, max, String, ◌≡◌, ◌≢◌, ◌↔◌, ◌⊎◌, inl, inr, refl,
  sym, ap, ◌∙◌, subst, Bool, true, false, not, ◌&&◌, ◌||◌, Option, none, some, List, [], ◌∷◌, ◌++◌,
  map, reverse, arith, Eq, nat_eq, string_eq, ◌==◌, nat_beq, ltb, leb, if◌then◌else◌, is_value,
  is_value_iff, is_none, is_empty, eq_iff, eq_self, Bool-cases, Option-cases, strip, length,
  get_elem?, All, keep_last, append_bounded, Result, ok, err, Method, returned,
}
use vrc_agent.WindowsOutput.{Readings, handle, OutputError}
use vrc_agent.Gateway.{Gateway, World, GatewayError, open_session, close_session, poll_expired}
use vrc_agent.Protocol.Messages.{
  Message, ProtocolError, Ack, SessionOpen, Authorize, OutputNeutralize, Hello, OutputCompleted,
  AudioChunk, ScreenshotRequest, ScreenshotResponse, Heartbeat,
}
use vrc_agent.Protocol.Encode.{encode_message}
use vrc_agent.Protocol.Decode.{Raw, decode_message}
use vrc_agent.Contracts.{OutputEnvelope, SignedLease, ControlResource, at}
use vrc_agent.Json.{Value}
pub mod Reconnecting
pub mod Frames
pub mod Closed
mod Tests

pub data BridgeError : Type 0 where
  protocol_error : ProtocolError → BridgeError
  not_session_open not_increasing invalid_from_mac : BridgeError
  output_error : OutputError → BridgeError
  gateway_error : GatewayError → BridgeError
  send_error connect_error receive_error input_error : String → BridgeError
  handshake_timeout : BridgeError

-- The fields of `WindowsBridgeStatus`, the gateway behind the controller, and what
-- was sent or passed on, the newest first.
pub record Bridge : Type 0 where
  pub gateway : Gateway
  pub session_id : Option String
  pub remote_heartbeat_sequence : Option ℤ
  pub connection_attempts : ℕ
  pub connections_opened : ℕ
  pub messages_received : ℕ
  pub messages_sent : ℕ
  pub watchdog_expirations : ℕ
  pub protocol_errors : ℕ
  pub last_error : Option BridgeError
  pub heartbeat : ℕ
  pub sent : List Value
  pub requests : List ScreenshotRequest

-- One turn of the loop: the wait for a message timed out, a message came, or the wait raised another
-- error. With a message comes the text of what the connection raises if it is to send an answer, or the
-- input transport at a screenshot request. The heartbeat that may stand before the wait is a turn of
-- its own, with the message that the input transport makes and what the connection raises.
pub data Turn : Type 0 where
  timed_out : Readings → Turn
  arrived : Readings → Raw → (raises : Option String) → Turn
  beating : ℕ → Heartbeat → (raises : Option String) → Turn
  lost : String → Turn

-- `connection.send(encoded)` and the count behind it.
abbrev pub send_encoded : ℕ → Value → Option String → Method Bridge BridgeError (Unit {0})
send_encoded clock v (some exc) b = (err (send_error exc), b)
send_encoded clock v none b =
    (ok tt, record b { messages_sent = b.messages_sent + 1; heartbeat = clock; sent = v ∷ b.sent })

-- `sender(response)`
abbrev pub send : ℕ → Message → Option String → Method Bridge BridgeError (Unit {0})
send clock m raises b = elim (encode_message m) [
  | err e ↦ (err (protocol_error e), b)
  | ok v ↦ send_encoded clock v raises b
]

abbrev pub respond :
    ℕ → Option String → Result OutputError (Option Ack) → Method Bridge BridgeError (Unit {0})
respond clock raises (err e) b = (err (output_error e), b)
respond clock raises (ok none) b = (ok tt, b)
respond clock raises (ok (some a)) b = send clock (Message.ack a) raises b

-- `handle_screenshot_request` of the input transport
abbrev pub request : Option String → ScreenshotRequest → Method Bridge BridgeError (Unit {0})
request (some exc) q b = (err (input_error exc), b)
request none q b = (ok tt, record b { requests = q ∷ b.requests })

-- A message for the controller.
unfoldable pub control :
    World → Readings → Message → Option String → Method Bridge BridgeError (Unit {0})
unfolding handle
control w times m raises b =
    let (answer, g) = handle w times m b.gateway in
    respond times.clock raises answer (record b { gateway = g })

-- `previous is not None and message.sequence <= previous`
abbrev pub beat_known : Option ℤ → ℤ → Bool
beat_known none sequence = false
beat_known (some previous) sequence = leb_ℤ sequence previous

abbrev pub beat : ℕ → Heartbeat → Method Bridge BridgeError (Unit {0})
beat clock m b =
    if not (m.sender == "mac")
    then (err invalid_from_mac, b)
    else if beat_known b.remote_heartbeat_sequence m.sequence
    then (err not_increasing, b)
    else (ok tt, record b { remote_heartbeat_sequence = some m.sequence; heartbeat = clock })

unfoldable pub dispatch :
    World → Readings → Message → Option String → Method Bridge BridgeError (Unit {0})
unfolding control
dispatch w times (Message.authorize m) raises b = control w times (Message.authorize m) raises b
dispatch w times (Message.output_neutralize m) raises b =
    control w times (Message.output_neutralize m) raises b
dispatch w times (Message.output_data e) raises b = control w times (Message.output_data e) raises b
dispatch w times (Message.screenshot_request q) raises b = request raises q b
dispatch w times (Message.heartbeat m) raises b = beat times.clock m b
dispatch w times _ raises b = (err invalid_from_mac, b)

-- `_count_received`
abbrev pub count_received : ℕ → Bridge → Bridge
count_received clock b = record b { messages_received = b.messages_received + 1; heartbeat = clock }

abbrev pub decoded :
    World
    → Readings
    → Option String
    → Result ProtocolError Message
    → Method Bridge BridgeError (Unit {0})
decoded w times raises (err e) b = (err (protocol_error e), b)
decoded w times raises (ok m) b = dispatch w times m raises (count_received times.clock b)

unfoldable pub turn : World → Turn → Method Bridge BridgeError (Unit {0})
unfolding dispatch
turn w (timed_out times) b =
    let (expired, g) = poll_expired w times.clock times.now b.gateway in
    (
      ok tt,
      record b {
        gateway = g;
        watchdog_expirations = b.watchdog_expirations + length expired;
        heartbeat = times.clock;
      },
    )
turn w (arrived times raw raises) b = decoded w times raises (decode_message raw) b
turn w (beating clock m raises) b = send clock (Message.heartbeat m) raises b
turn w (lost exc) b = (err (receive_error exc), b)

abbrev pub proceed :
    (Bridge → Result BridgeError (Unit {0}) × Bridge)
    → Result BridgeError (Unit {0}) × Bridge
    → Result BridgeError (Unit {0}) × Bridge
proceed next (ok _, b) = next b
proceed next (err e, b) = (err e, b)

-- The loop, up to its first error; it ends too when the client is stopped.
unfoldable pub loop : World → List Turn → Method Bridge BridgeError (Unit {0})
unfolding turn
loop w [] b = (ok tt, b)
loop w (t ∷ ts) b = proceed (loop w ts) (turn w t b)

-- The `finally` of the loop, `close_session` of the controller among it.
unfoldable pub finish : World → ℕ → String → Bridge → Bridge
finish w clock id b = record b {
  gateway = (close_session w clock id b.gateway).1;
  session_id = none;
  remote_heartbeat_sequence = none;
  heartbeat = clock;
}

abbrev pub connected : ℕ → String → Gateway → Bridge → Bridge
connected clock id g b = record b {
  gateway = g;
  session_id = some id;
  remote_heartbeat_sequence = none;
  connections_opened = b.connections_opened + 1;
  last_error = none;
  heartbeat = clock;
}

-- The session that the controller opened; if the input transport refuses it, it is closed again.
abbrev pub session_opened :
    World
    → ℕ
    → ℕ
    → Option String
    → List Turn
    → String
    → Bridge
    → Gateway
    → Result BridgeError (Unit {0}) × Bridge
session_opened w start end (some exc) ts id b g =
    (err (input_error exc), record b { gateway = (close_session w start id g).1 })
session_opened w start end none ts id b g =
    let (r, b') = loop w ts (connected start id g b) in (r, finish w end id b')

abbrev pub session_from :
    World
    → ℕ
    → ℕ
    → Option String
    → List Turn
    → String
    → Bridge
    → Result GatewayError (Unit {0}) × Gateway
    → Result BridgeError (Unit {0}) × Bridge
session_from w start end refuses ts id b (err e, g) =
    (err (gateway_error e), record b { gateway = g })
session_from w start end refuses ts id b (ok _, g) = session_opened w start end refuses ts id b g

-- The session from its open message on; `start` and `end` are the clock's readings there, and
-- `refuses` is what `open_session` of the input transport raises.
unfoldable pub run_session :
    World → ℕ → ℕ → Option String → List Turn → SessionOpen → Method Bridge BridgeError (Unit {0})
unfolding loop finish
run_session w start end refuses ts m b =
    session_from w start end refuses ts m.session_id b (open_session w start m.session_id b.gateway)

abbrev pub from_first :
    World → ℕ → ℕ → Option String → List Turn → Message → Method Bridge BridgeError (Unit {0})
from_first w start end refuses ts (Message.session_open m) b =
    run_session w start end refuses ts m b
from_first w start end refuses ts _ b = (err not_session_open, b)

abbrev pub from_decoded :
    World
    → ℕ
    → ℕ
    → Option String
    → List Turn
    → Result ProtocolError Message
    → Method Bridge BridgeError (Unit {0})
from_decoded w start end refuses ts (err e) b = (err (protocol_error e), b)
from_decoded w start end refuses ts (ok m) b =
    from_first w start end refuses ts m (count_received start b)

-- `_run_connection` from the first message of the Mac on.
unfoldable pub run_connection :
    World → ℕ → ℕ → Option String → List Turn → Raw → Method Bridge BridgeError (Unit {0})
unfolding run_session
run_connection w start end refuses ts raw b =
    from_decoded w start end refuses ts (decode_message raw) b
