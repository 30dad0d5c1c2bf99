-- ===== src/WindowsBridge/Closed.antt =====
-- What windows_bridge_client.py leaves between two connections.
use vrc_agent.Prelude.{
  ℕ, String, ◌≡◌, inl, inr, refl, sym, subst, Option, none, some, List, [], ◌∷◌, arith, nat_eq,
  string_eq, Option-cases, Result, ok, err,
}
use vrc_agent.WindowsBridge.{
  Bridge, BridgeError, Turn, send, run_connection, proceed, from_decoded, from_first, run_session,
  session_from, count_received,
}
use vrc_agent.WindowsBridge.Reconnecting.{
  Attempt, count_attempt, settle, receive_first, connect, attempt, attempts,
}
use vrc_agent.WindowsBridge.Frames.{send-gateway, session_from-IsReleased}
use vrc_agent.Gateway.{World, Gateway, GatewayError, open_session}
use vrc_agent.Gateway.Ownership.{IsReleased, opened-session}
use vrc_agent.Protocol.Messages.{Message, ProtocolError, SessionOpen}
use vrc_agent.Protocol.Decode.{Raw, decode_message}
use vrc_agent.Contracts.{voice_output, full_body_pose, at}

-- No session is open, and no output has an owner.
pub record IsClosed (g : Gateway) : Type 0 where
  pub no_session : g.session_id ≡ none
  pub voice_free : (at g.resources voice_output).action_id ≡ none
  pub body_free : (at g.resources full_body_pose).action_id ≡ none

released-IsClosed : (g : Gateway) → IsReleased g → IsClosed g
released-IsClosed g h = record {
  no_session = h.closed;
  voice_free = h.voice_free;
  body_free = h.body_free;
}

-- A session that is refused changes nothing.
refused-same :
    (w : World) (now : ℕ) (id : String) (g : Gateway) (e : GatewayError)
    → (open_session w now id g).0 ≡ err e
    → (open_session w now id g).1 ≡ g
unfolding open_session
refused-same w now id g e h = ground (arith, h)

session_from-IsClosed :
    (w : World) (start end : ℕ) (refuses : Option String) (ts : List Turn) (id : String)
    (b : Bridge) (x : Result GatewayError (Unit {0}) × Gateway)
    → (x.0 ≡ ok tt → x.1.session_id ≡ some id)
    → ((e : GatewayError) → x.0 ≡ err e → IsClosed x.1)
    → IsClosed (session_from w start end refuses ts id b x).1.gateway
session_from-IsClosed w start end refuses ts id b (ok u, g) opened refused =
    released-IsClosed _
      (session_from-IsReleased w start end refuses ts id b (ok u, g) refl (opened refl))
session_from-IsClosed w start end refuses ts id b (err e, g) opened refused = refused e refl

run_session-IsClosed :
    (w : World) (start end : ℕ) (refuses : Option String) (ts : List Turn) (m : SessionOpen)
    (b : Bridge)
    → IsClosed b.gateway
    → IsClosed (run_session w start end refuses ts m b).1.gateway
unfolding run_session
run_session-IsClosed w start end refuses ts m b h =
    session_from-IsClosed w start end refuses ts m.session_id b
      (open_session w start m.session_id b.gateway) (opened-session w start m.session_id b.gateway)
      (λ e bad. subst IsClosed (sym (refused-same w start m.session_id b.gateway e bad)) h)

from_first-IsClosed :
    (w : World) (start end : ℕ) (refuses : Option String) (ts : List Turn) (m : Message)
    (b : Bridge)
    → IsClosed b.gateway
    → IsClosed (from_first w start end refuses ts m b).1.gateway
from_first-IsClosed w start end refuses ts (Message.session_open m) b h =
    run_session-IsClosed w start end refuses ts m b h
from_first-IsClosed w start end refuses ts (Message.hello m) b h = h
from_first-IsClosed w start end refuses ts (Message.authorize m) b h = h
from_first-IsClosed w start end refuses ts (Message.output_neutralize m) b h = h
from_first-IsClosed w start end refuses ts (Message.output_data m) b h = h
from_first-IsClosed w start end refuses ts (Message.ack m) b h = h
from_first-IsClosed w start end refuses ts (Message.output_completed m) b h = h
from_first-IsClosed w start end refuses ts (Message.audio_chunk m) b h = h
from_first-IsClosed w start end refuses ts (Message.screenshot_request m) b h = h
from_first-IsClosed w start end refuses ts (Message.screenshot_response m) b h = h
from_first-IsClosed w start end refuses ts (Message.heartbeat m) b h = h

from_decoded-IsClosed :
    (w : World) (start end : ℕ) (refuses : Option String) (ts : List Turn)
    (r : Result ProtocolError Message) (b : Bridge)
    → IsClosed b.gateway
    → IsClosed (from_decoded w start end refuses ts r b).1.gateway
from_decoded-IsClosed w start end refuses ts (err e) b h = h
from_decoded-IsClosed w start end refuses ts (ok m) b h =
    from_first-IsClosed w start end refuses ts m (count_received start b) h

first-IsClosed :
    (w : World) (a : Attempt) (o : Option Raw) (b : Bridge)
    → a.first ≡ o
    → IsClosed b.gateway
    → IsClosed (receive_first w a b).1.gateway
unfolding run_connection
first-IsClosed w a none b e h = rw e h
first-IsClosed w a (some raw) b e h =
    rw e (from_decoded-IsClosed w a.start a.end a.input_raises a.turns (decode_message raw) b h)

hello-IsClosed :
    (w : World) (a : Attempt) (x : Result BridgeError (Unit {0}) × Bridge)
    → IsClosed x.1.gateway
    → IsClosed (proceed (receive_first w a) x).1.gateway
hello-IsClosed w a (ok u, b) h = first-IsClosed w a a.first b refl h
hello-IsClosed w a (err e, b) h = h

connect-IsClosed :
    (w : World) (id : String) (a : Attempt) (b : Bridge)
    → IsClosed b.gateway
    → IsClosed (connect w id a b).1.gateway
unfolding connect
connect-IsClosed w id a b h = elim (Option-cases a.connect_raises) [
  | inl fine ↦ rw fine (
      hello-IsClosed w a
        (send a.start (Message.hello (record { client_instance_id = id })) a.hello_raises b)
        (subst IsClosed
          (sym (
            send-gateway a.start (Message.hello (record { client_instance_id = id })) a.hello_raises
              b))
          h))
  | inr (exc, bad) ↦ rw bad h
]

settle-IsClosed :
    (a : Attempt) (x : Result BridgeError (Unit {0}) × Bridge)
    → IsClosed x.1.gateway
    → IsClosed (settle a x).gateway × ((settle a x).session_id ≡ none)
settle-IsClosed a (ok u, b) h = (h, refl)
settle-IsClosed a (err e, b) h = (ground (arith, h), refl)

-- From a gateway without a session and without owners, however many connections are attempted, whatever
-- comes over them and however each ends, the gateway has no session and no owners again.
pub attempts-IsClosed :
    (w : World) (id : String) (tries : List Attempt) (b : Bridge)
    → IsClosed b.gateway
    → IsClosed (attempts w id tries b).gateway
unfolding attempts attempt
attempts-IsClosed w id [] b h = h
attempts-IsClosed w id (a ∷ rest) b h =
    attempts-IsClosed w id rest (attempt w id a b)
      (settle-IsClosed a (connect w id a (count_attempt a.start b))
        (connect-IsClosed w id a (count_attempt a.start b) h)).0
