-- ===== src/WindowsBridge/Frames.antt =====
-- What the frames that windows_bridge_client.py receives do to the device gateway.
use vrc_agent.Prelude.{
  none, ℕ, String, ◌≡◌, refl, sym, ap, ◌∙◌, subst, Option, some, List, [], ◌∷◌, ◌++◌, arith, nat_eq,
  string_eq, Result, ok, err,
}
use vrc_agent.WindowsBridge.{
  request, send, beating, Bridge, BridgeError, Turn, timed_out, lost, arrived, respond, control,
  dispatch, count_received, decoded, turn, proceed, loop, finish, connected, session_from,
  run_session,
}
use vrc_agent.WindowsOutput.{Readings, handle, OutputError, calls_of, data_answer}
use vrc_agent.WindowsOutput.Ownership.{handle-run}
use vrc_agent.Gateway.{
  Gateway, World, GatewayError, open_session, apply_envelope, Decision, accepted, rejected,
}
use vrc_agent.Gateway.Calls.{Call, poll_call, run, run_call}
use vrc_agent.Gateway.Ordering.{Before, accepted_in_order}
use vrc_agent.Gateway.Ownership.{IsReleased, close_session-IsReleased, run-session, opened-session}
use vrc_agent.Protocol.Messages.{Message, ScreenshotRequest, ProtocolError, Ack, SessionOpen}
use vrc_agent.Protocol.Decode.{Raw, decode_message}
use vrc_agent.Contracts.{OutputEnvelope}

-- The gateway went through calls of one session.
abbrev pub Reaches : World → Gateway → Gateway → Type 0
Reaches w g g' = (cs : List Call) × (g' ≡ run w cs g)

respond-gateway :
    (clock : ℕ) (raises : Option String) (r : Result OutputError (Option Ack)) (b : Bridge)
    → (respond clock raises r b).1.gateway ≡ b.gateway
respond-gateway clock raises r b = ground arith

request-gateway :
    (raises : Option String) (q : ScreenshotRequest) (b : Bridge)
    → (request raises q b).1.gateway ≡ b.gateway
request-gateway raises q b = ground arith

pub send-gateway :
    (clock : ℕ) (m : Message) (raises : Option String) (b : Bridge)
    → (send clock m raises b).1.gateway ≡ b.gateway
send-gateway clock m raises b = ground arith

control-Reaches :
    (w : World) (times : Readings) (m : Message) (raises : Option String) (b : Bridge)
    → Reaches w b.gateway (control w times m raises b).1.gateway
unfolding control
control-Reaches w times m raises b = (
  calls_of times m,
  respond-gateway times.clock raises (handle w times m b.gateway).0
        (record b { gateway = (handle w times m b.gateway).1 })
      ∙ handle-run w times m b.gateway,
)

dispatch-Reaches :
    (w : World) (times : Readings) (m : Message) (raises : Option String) (b : Bridge)
    → Reaches w b.gateway (dispatch w times m raises b).1.gateway
unfolding dispatch run
dispatch-Reaches w times (Message.authorize m) raises b =
    control-Reaches w times (Message.authorize m) raises b
dispatch-Reaches w times (Message.output_neutralize m) raises b =
    control-Reaches w times (Message.output_neutralize m) raises b
dispatch-Reaches w times (Message.output_data e) raises b =
    control-Reaches w times (Message.output_data e) raises b
dispatch-Reaches w times (Message.screenshot_request q) raises b = ([], request-gateway raises q b)
dispatch-Reaches w times (Message.heartbeat m) raises b = ([], ground arith)
dispatch-Reaches w times (Message.hello m) raises b = ([], refl)
dispatch-Reaches w times (Message.session_open m) raises b = ([], refl)
dispatch-Reaches w times (Message.ack m) raises b = ([], refl)
dispatch-Reaches w times (Message.output_completed m) raises b = ([], refl)
dispatch-Reaches w times (Message.audio_chunk m) raises b = ([], refl)
dispatch-Reaches w times (Message.screenshot_response m) raises b = ([], refl)

decoded-Reaches :
    (w : World) (times : Readings) (raises : Option String) (r : Result ProtocolError Message)
    (b : Bridge)
    → Reaches w b.gateway (decoded w times raises r b).1.gateway
unfolding run
decoded-Reaches w times raises (err e) b = ([], refl)
decoded-Reaches w times raises (ok m) b =
    dispatch-Reaches w times m raises (count_received times.clock b)

turn-Reaches : (w : World) (t : Turn) (b : Bridge) → Reaches w b.gateway (turn w t b).1.gateway
unfolding turn run run_call
turn-Reaches w (timed_out times) b = (poll_call times.clock times.now ∷ [], refl)
turn-Reaches w (beating clock m raises) b = ([], send-gateway clock (Message.heartbeat m) raises b)
turn-Reaches w (lost exc) b = ([], refl)
turn-Reaches w (arrived times raw raises) b = decoded-Reaches w times raises (decode_message raw) b

run-append :
    (w : World) (xs ys : List Call) (g : Gateway) → run w (xs ++ ys) g ≡ run w ys (run w xs g)
unfolding run
run-append w [] ys g = refl
run-append w (x ∷ xs) ys g = run-append w xs ys (run_call w x g)

Reaches-trans : (w : World) (a b c : Gateway) → Reaches w a b → Reaches w b c → Reaches w a c
Reaches-trans w a b c (xs, e) (ys, f) = (xs ++ ys, f ∙ ap (run w ys) e ∙ sym (run-append w xs ys a))

proceed-Reaches :
    (w : World) (next : Bridge → Result BridgeError (Unit {0}) × Bridge) (g : Gateway)
    (x : Result BridgeError (Unit {0}) × Bridge)
    → ((b : Bridge) → Reaches w b.gateway (next b).1.gateway)
    → Reaches w g x.1.gateway
    → Reaches w g (proceed next x).1.gateway
proceed-Reaches w next g (ok u, b) h r = Reaches-trans w g b.gateway (next b).1.gateway r (h b)
proceed-Reaches w next g (err e, b) h r = r

loop-Reaches :
    (w : World) (ts : List Turn) (b : Bridge) → Reaches w b.gateway (loop w ts b).1.gateway
unfolding loop run
loop-Reaches w [] b = ([], refl)
loop-Reaches w (t ∷ ts) b =
    proceed-Reaches w (loop w ts) b.gateway (turn w t b) (loop-Reaches w ts) (turn-Reaches w t b)

answer-accepted :
    (clock : ℕ) (raises : Option String) (e : OutputEnvelope) (d : Decision) (b : Bridge)
    → (respond clock raises (data_answer e d) b).0 ≡ ok tt
    → d ≡ accepted
answer-accepted clock raises e accepted b h = refl
answer-accepted clock raises e (rejected reason) b h = cc

-- The gateway accepted the message and is as it left it.
abbrev Accepted :
    World → Readings → OutputEnvelope → Gateway → Result BridgeError (Unit {0}) × Bridge → Type 0
Accepted w times e g x =
    ((apply_envelope w times.clock e times.received times.now g).0 ≡ accepted)
    × (x.1.gateway ≡ (apply_envelope w times.clock e times.received times.now g).1)

dispatch-Accepted :
    (w : World) (times : Readings) (raises : Option String) (e : OutputEnvelope) (b : Bridge)
    → (dispatch w times (Message.output_data e) raises b).0 ≡ ok tt
    → Accepted w times e b.gateway (dispatch w times (Message.output_data e) raises b)
unfolding dispatch control handle
dispatch-Accepted w times raises e b fine =
    let (d, g) = apply_envelope w times.clock e times.received times.now b.gateway in
    (
      answer-accepted times.clock raises e d (record b { gateway = g }) fine,
      respond-gateway times.clock raises (data_answer e d) (record b { gateway = g }),
    )

decoded-Accepted :
    (w : World) (times : Readings) (raises : Option String) (r : Result ProtocolError Message)
    (e : OutputEnvelope) (b : Bridge)
    → ok (Message.output_data e) ≡ r
    → (decoded w times raises r b).0 ≡ ok tt
    → Accepted w times e b.gateway (decoded w times raises r b)
decoded-Accepted w times raises r e b made =
    subst
      (λ x.
        (decoded w times raises x b).0 ≡ ok tt
        → Accepted w times e b.gateway (decoded w times raises x b))
      made (dispatch-Accepted w times raises e (count_received times.clock b))

-- A frame of output data that the loop goes on after was accepted.
turn-Accepted :
    (w : World) (times : Readings) (raw : Raw) (raises : Option String) (e : OutputEnvelope)
    (b : Bridge)
    → decode_message raw ≡ ok (Message.output_data e)
    → (turn w (arrived times raw raises) b).0 ≡ ok tt
    → Accepted w times e b.gateway (turn w (arrived times raw raises) b)
unfolding turn
turn-Accepted w times raw raises e b made =
    decoded-Accepted w times raises (decode_message raw) e b (sym made)

-- Of two frames of output data for a resource that the loop goes on after, with any turns between
-- them, the later one has a newer token, or no older token and a greater sequence number.
pub frames_in_order :
    (w : World) (times later : Readings) (raw raw' : Raw) (raises raises' : Option String)
    (e e' : OutputEnvelope) (ts : List Turn) (b : Bridge)
    → decode_message raw ≡ ok (Message.output_data e)
    → decode_message raw' ≡ ok (Message.output_data e')
    → e'.resource ≡ e.resource
    → (turn w (arrived times raw raises) b).0 ≡ ok tt
    → (turn w (arrived later raw' raises') (loop w ts (turn w (arrived times raw raises) b).1).1).0
      ≡ ok tt
    → Before e.lease_token e.sequence e'.lease_token e'.sequence
frames_in_order w times later raw raw' raises raises' e e' ts b made made' same fine fine' =
    let first = turn w (arrived times raw raises) b in
    let (good, after) = turn-Accepted w times raw raises e b made fine in
    let (good', _) = turn-Accepted w later raw' raises' e' (loop w ts first.1).1 made' fine' in
    let (cs, reached) = loop-Reaches w ts first.1 in
    let there : (loop w ts first.1).1.gateway
        ≡ run w cs (apply_envelope w times.clock e times.received times.now b.gateway).1 =
      reached ∙ ap (run w cs) after in
    accepted_in_order w times.clock later.clock e e' times.received times.now later.received
      later.now b.gateway cs good same
      (subst (λ g. (apply_envelope w later.clock e' later.received later.now g).0 ≡ accepted) there
        good')

pub session_from-IsReleased :
    (w : World) (start end : ℕ) (refuses : Option String) (ts : List Turn) (id : String)
    (b : Bridge) (x : Result GatewayError (Unit {0}) × Gateway)
    → x.0 ≡ ok tt
    → x.1.session_id ≡ some id
    → IsReleased (session_from w start end refuses ts id b x).1.gateway
unfolding finish
session_from-IsReleased w start end refuses ts id b (err e, g) h same = cc
session_from-IsReleased w start end (some exc) ts id b (ok u, g) h same =
    close_session-IsReleased w start id g same
session_from-IsReleased w start end none ts id b (ok u, g) h same =
    let (cs, reached) = loop-Reaches w ts (connected start id g b) in
    close_session-IsReleased w end id (loop w ts (connected start id g b)).1.gateway
      (ap (λ x. x.session_id) reached ∙ run-session w cs g ∙ same)

-- A session that the gateway opened, whether or not the input transport refused it, whatever frames
-- came, whatever they did and however it ended, leaves the gateway without a session and without owners, after a neutral call for each output.
pub run_session-IsReleased :
    (w : World) (start end : ℕ) (refuses : Option String) (ts : List Turn) (m : SessionOpen)
    (b : Bridge)
    → (open_session w start m.session_id b.gateway).0 ≡ ok tt
    → IsReleased (run_session w start end refuses ts m b).1.gateway
unfolding run_session
run_session-IsReleased w start end refuses ts m b h =
    session_from-IsReleased w start end refuses ts m.session_id b
      (open_session w start m.session_id b.gateway) h
      (opened-session w start m.session_id b.gateway h)
