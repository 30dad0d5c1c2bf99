-- ===== src/WindowsOutput/Tests.antt =====
-- An acknowledged lease of windows_output_controller.py.
use vrc_agent.Prelude.Int.{pos}
use vrc_agent.Prelude.{◌≡◌, refl, true, none, some, nat_eq, string_eq, ok}
use vrc_agent.WindowsOutput.{Readings, handle}
use vrc_agent.WindowsOutput.Ownership.{authorized-IsHeld}
use vrc_agent.Gateway.Ownership.{IsHeld}
use vrc_agent.Gateway.{Gateway, World, authorize, open_session, init}
use vrc_agent.Protocol.Messages.{Message, Ack, Authorize}
use vrc_agent.Contracts.{voice_output}

abbrev world : World
world = record { history_limit = 50; answer = λ _ _. none }

abbrev opened : Gateway
opened = (open_session world 1 "s" (init 0)).1

abbrev request : Authorize
request = record {
  message_id = "m";
  session_id = "s";
  lease = record { resource = voice_output; token = pos 1; action_id = some "a" };
}

abbrev times : Readings
times = record { received = 2; now = 2; clock = 3 }

abbrev answer : Ack
answer = record { message_id = "m"; accepted = true; reason = none }

answered : (handle world times (Message.authorize request) opened).0 ≡ ok (some answer)
unfolding handle authorize open_session
answered = refl

authorized-IsHeld_example :
    (answer.message_id ≡ request.message_id)
    × IsHeld request.lease (handle world times (Message.authorize request) opened).1
authorized-IsHeld_example = authorized-IsHeld world times request opened answer answered refl
