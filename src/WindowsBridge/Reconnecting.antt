-- ===== src/WindowsBridge/Reconnecting.antt =====
-- `_run` of vrc_ardy_agent/windows_bridge_client.py: one connection after the other.
use vrc_agent.Prelude.{
  ℕ, ◌+◌, String, Bool, true, false, Option, none, some, List, [], ◌∷◌, nat_eq, string_eq,
  if◌then◌else◌, Result, ok, err,
}
use vrc_agent.WindowsBridge.{
  Bridge, BridgeError, protocol_error, not_session_open, not_increasing, invalid_from_mac,
  connect_error, handshake_timeout, Turn, send, run_connection, proceed,
}
use vrc_agent.Gateway.{World}
use vrc_agent.Protocol.Messages.{Message, type_error}
use vrc_agent.Protocol.Decode.{Raw}

-- What the outside does in one attempt: the connection, the answer to the hello, the first message, if
-- one came in time, what the input transport raises when the session is opened, and the turns of the loop; `start` and `end` are the clock's readings, and
-- `is_stopping` is whether the client is being stopped when an error comes.
pub record Attempt : Type 0 where
  pub connect_raises : Option String
  pub hello_raises : Option String
  pub first : Option Raw
  pub input_raises : Option String
  pub turns : List Turn
  pub start : ℕ
  pub end : ℕ
  pub is_stopping : Bool

-- `_count_attempt`
abbrev pub count_attempt : ℕ → Bridge → Bridge
count_attempt clock b = record b {
  connection_attempts = b.connection_attempts + 1;
  heartbeat = clock;
}

-- The error is a `ProtocolError`; Python's `TypeError` is none.
abbrev pub is_protocol : BridgeError → Bool
is_protocol (protocol_error type_error) = false
is_protocol (protocol_error e) = true
is_protocol not_session_open = true
is_protocol not_increasing = true
is_protocol invalid_from_mac = true
is_protocol _ = false

-- `_record_error`
abbrev pub record_error : ℕ → Bool → BridgeError → Bridge → Bridge
record_error clock protocol e b = record b {
  protocol_errors = b.protocol_errors + (if protocol then 1 else 0);
  heartbeat = clock;
  last_error = some e;
}

-- The `except` clauses of the loop.
abbrev pub report : ℕ → Bool → BridgeError → Bridge → Bridge
report clock stopping e b =
    if is_protocol e
    then record_error clock true e b
    else if stopping
    then b
    else record_error clock false e b

-- Its `finally`.
abbrev pub disconnected : ℕ → Bridge → Bridge
disconnected clock b = record b {
  session_id = none;
  remote_heartbeat_sequence = none;
  heartbeat = clock;
}

abbrev pub settle : Attempt → Result BridgeError (Unit {0}) × Bridge → Bridge
settle a (ok _, b) = disconnected a.end b
settle a (err e, b) = disconnected a.end (report a.end a.is_stopping e b)

-- The first message, behind the hello.
abbrev pub receive_first : World → Attempt → Bridge → Result BridgeError (Unit {0}) × Bridge
receive_first w a b = elim a.first [
  | none ↦ (err handshake_timeout, b)
  | some raw ↦ run_connection w a.start a.end a.input_raises a.turns raw b
]

-- `with self._connection_factory() as connection: self._run_connection(connection)`
unfoldable pub connect : World → String → Attempt → Bridge → Result BridgeError (Unit {0}) × Bridge
unfolding run_connection
connect w id a b = elim a.connect_raises [
  | some exc ↦ (err (connect_error exc), b)
  | none ↦
      proceed (receive_first w a)
        (send a.start (Message.hello (record { client_instance_id = id })) a.hello_raises b)
]

unfoldable pub attempt : World → String → Attempt → Bridge → Bridge
unfolding connect
attempt w id a b = settle a (connect w id a (count_attempt a.start b))

-- The attempts one after the other, until the client is stopped.
unfoldable pub attempts : World → String → List Attempt → Bridge → Bridge
unfolding attempt
attempts w id [] b = b
attempts w id (a ∷ rest) b = attempts w id rest (attempt w id a b)
