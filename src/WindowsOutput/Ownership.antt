-- ===== src/WindowsOutput/Ownership.antt =====
-- What an acknowledgement of windows_output_controller.py says of the gateway.
use vrc_agent.Prelude.{String, ◌≡◌, refl, sym, ap, ◌∙◌, true, some, arith, nat_eq, string_eq, ok}
use vrc_agent.WindowsOutput.{Readings, handle, ack_of, calls_of}
use vrc_agent.Gateway.{Gateway, World, Decision, accepted, rejected, authorize}
use vrc_agent.Gateway.Ownership.{IsHeld, authorize-IsHeld}
use vrc_agent.Gateway.Calls.{run, run_call}
use vrc_agent.Protocol.Messages.{Message, Ack, Authorize}

-- Whatever the message was, the gateway took the calls that it stands for.
pub handle-run :
    (w : World) (times : Readings) (m : Message) (g : Gateway)
    → (handle w times m g).1 ≡ run w (calls_of times m) g
unfolding handle run run_call
handle-run w times (Message.authorize m) g = refl
handle-run w times (Message.output_neutralize m) g = refl
handle-run w times (Message.output_data e) g = refl
handle-run w times (Message.hello m) g = refl
handle-run w times (Message.session_open m) g = refl
handle-run w times (Message.ack m) g = refl
handle-run w times (Message.output_completed m) g = refl
handle-run w times (Message.audio_chunk m) g = refl
handle-run w times (Message.screenshot_request m) g = refl
handle-run w times (Message.screenshot_response m) g = refl
handle-run w times (Message.heartbeat m) g = refl

ack_of-id : (id : String) (d : Decision) → (ack_of id d).message_id ≡ id
ack_of-id id accepted = refl
ack_of-id id (rejected reason) = refl

ack_of-accepted : (id : String) (d : Decision) → (ack_of id d).accepted ≡ true → d ≡ accepted
ack_of-accepted id d h = ground (arith, h)

-- An acknowledgement that accepts an authorize message carries its id, and the gateway's resource then
-- has the lease's token and action.
pub authorized-IsHeld :
    (w : World) (times : Readings) (m : Authorize) (g : Gateway) (a : Ack)
    → (handle w times (Message.authorize m) g).0 ≡ ok (some a)
    → a.accepted ≡ true
    → (a.message_id ≡ m.message_id) × IsHeld m.lease (handle w times (Message.authorize m) g).1
unfolding handle
authorized-IsHeld w times m g a e good =
    let d = (authorize w times.clock m.session_id m.lease g).0 in
    let same : ack_of m.message_id d ≡ a = ground (arith, e) in
    let yes : d ≡ accepted = ack_of-accepted m.message_id d (ap (λ x. x.accepted) same ∙ good) in
    (
      ap (λ x. x.message_id) (sym same) ∙ ack_of-id m.message_id d,
      authorize-IsHeld w times.clock m.session_id m.lease g yes,
    )
