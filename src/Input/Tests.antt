-- ===== src/Input/Tests.antt =====
-- An interleaving of windows_input_transport.py: a chunk of the first session is sent after the second
-- was opened.
use vrc_agent.Input.Threads.{
  Event, open_event, close_event, publish_event, request_event, beat_event, thread_event, gave,
  threw, started, run, step, advance, run_thread, opening, publishing,
}
use vrc_agent.Input.Counting.{IsCounted, run-IsCounted}
use vrc_agent.Input.Numbering.{IsNumbered, run-IsNumbered}
use vrc_agent.Input.Delivery.{IsOwn, run-delivers}
use vrc_agent.Input.{
  touch, record_error, count_sent, open_session, close_session, take_chunk, take_beat,
  request_sender,
}
use vrc_agent.Prelude.Int.{pos}
use vrc_agent.Prelude.{All, strip, List, [], ◌∷◌, ◌≡◌, refl, map, ℕ}

abbrev events : List Event
events =
    open_event 1 "a"
    ∷ publish_event 2 (1 ∷ 2 ∷ []) (pos 7)
    ∷ close_event 3 "a"
    ∷ open_event 4 "b"
    ∷ thread_event 0 5 (threw "OSError: closed")
    ∷ publish_event 6 (3 ∷ 4 ∷ []) (pos 8)
    ∷ request_event (record { request_id = "r"; session_id = "b" })
    ∷ thread_event 0 7 (gave [])
    ∷ thread_event 1 8 (gave [])
    ∷ beat_event
    ∷ []

abbrev receivers : List ℕ
receivers = 2 ∷ 1 ∷ []

delivered_to : map (λ d. d.0.number) (run events (started 0)).delivered ≡ receivers
unfolding run step advance run_thread opening publishing open_session close_session take_chunk
    take_beat request_sender vrc_agent.Prelude.strip touch record_error count_sent
delivered_to = refl

run-IsCounted_example : IsCounted (run events (started 0))
run-IsCounted_example = run-IsCounted 0 events

run-IsNumbered_example : IsNumbered (run events (started 0))
run-IsNumbered_example = run-IsNumbered 0 events

run-delivers_example : All IsOwn (run events (started 0)).delivered
run-delivers_example = run-delivers 0 events
