-- ===== src/MacInput/Tests.antt =====
-- A run of mac_input_transport.py: two chunks of the first session with two missing between them, a
-- request that the second session answers, and a chunk of the second session.
use vrc_agent.Waiting.{fail_entries}
use vrc_agent.Prelude.Int.{pos}
use vrc_agent.Prelude.{
  ℕ, ◌+◌, String, ◌≡◌, refl, none, some, List, [], ◌∷◌, nat_eq, string_eq, strip, All,
}
use vrc_agent.MacInput.{
  open_session, close_session, take_audio, take_response, take_request, leave_request,
}
use vrc_agent.MacInput.Threads.{
  Event, open_event, close_event, request_event, receive_event, thread_event, run, step, advance,
  run_thread, opening, receiving, started, Outcome, picture, System,
}
use vrc_agent.MacInput.Ordering.{IsOrdered, span, run-IsOrdered}
use vrc_agent.MacInput.Requests.{run-IsAnswered}
use vrc_agent.MacInput.Holding.{IsAnswered}
use vrc_agent.Input.Threads.{gave}
use vrc_agent.Protocol.Messages.{Message, audio_chunk, screenshot_response}

abbrev chunk_of : String → ℕ → Message
chunk_of id n =
    audio_chunk
      (record { session_id = id; sequence = pos n; captured_ns = pos 0; pcm = 1 ∷ 2 ∷ [] })

abbrev answer : Message
answer =
    screenshot_response
      (record { request_id = "r"; session_id = "b"; jpeg = some (255 ∷ 216 ∷ []); error = none })

abbrev events : List Event
events =
    open_event 1 "a"
    ∷ receive_event 2 (chunk_of "a" 4)
    ∷ receive_event 3 (chunk_of "a" 7)
    ∷ request_event "r"
    ∷ thread_event 0 4 (gave [])
    ∷ close_event 5 "a" "lost"
    ∷ open_event 6 "b"
    ∷ receive_event 7 answer
    ∷ receive_event 8 (chunk_of "b" 0)
    ∷ thread_event 1 9 (gave [])
    ∷ thread_event 1 10 (gave [])
    ∷ thread_event 1 11 (gave [])
    ∷ []

abbrev final : System
final = run events (started 0)

abbrev outcomes : List (String × Outcome)
outcomes = ("r", picture (255 ∷ 216 ∷ [])) ∷ []

-- The answer of the second session reaches the request of the first: its id is the same.
final-outcomes : final.outcomes ≡ outcomes
unfolding run step advance run_thread opening receiving open_session close_session take_audio
    take_response take_request leave_request fail_entries strip
final-outcomes = refl

run-IsOrdered_example :
    IsOrdered final.chunks
    × (final.receiver.audio_chunks_received + final.receiver.missing_audio_chunks
        ≡ span final.chunks)
run-IsOrdered_example = run-IsOrdered 0 events

run-IsAnswered_example : All (IsAnswered final.responses) final.outcomes
run-IsAnswered_example = run-IsAnswered 0 events
