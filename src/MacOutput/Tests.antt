-- ===== src/MacOutput/Tests.antt =====
-- A run of mac_output_transport.py: a lease that is acknowledged, then speech that is completed.
use vrc_agent.Prelude.Int.{pos}
use vrc_agent.Prelude.{
  ℕ, ◌≡◌, refl, true, false, none, some, List, [], ◌∷◌, arith, nat_eq, string_eq, strip, All,
}
use vrc_agent.MacOutput.{Speech, speech_eq, open_session, take_ack, take_completion}
use vrc_agent.MacOutput.Advance.{advance, started, Answer, control, speech, done, System}
use vrc_agent.MacOutput.Threads.{
  Event, open_event, authorize_event, speech_event, receive_event, thread_event, run, step,
  run_thread, opening, receiving,
}
use vrc_agent.MacOutput.Holding.{IsEnded}
use vrc_agent.MacOutput.Ending.{walk, walk-finished}
use vrc_agent.MacOutput.Advance.{Thread, entering, finished}
use vrc_agent.MacOutput.Answers.{run-IsEnded}
use vrc_agent.Protocol.Messages.{Message, ack, output_completed}
use vrc_agent.Contracts.{SignedLease, voice_output, resource_eq}
use vrc_agent.Json.{null}

abbrev fine : Answer
fine = record { raised = none; time_is_up = false; is_cancelled = false }

abbrev lease : SignedLease
lease = record { resource = voice_output; token = pos 1; action_id = some "a" }

abbrev accepted : Message
accepted = ack (record { message_id = "m"; accepted = true; reason = none })

abbrev completed : Message
completed = output_completed (record {
  session_id = "s";
  action_id = "a";
  resource = voice_output;
  lease_token = pos 1;
  state = "completed";
  error = none;
})

abbrev thread_step : ℕ → Event
thread_step now = thread_event 0 now fine

abbrev events : List Event
events =
    open_event 1 "s"
    ∷ authorize_event "m" lease
    ∷ thread_step 1
    ∷ thread_step 2
    ∷ thread_step 3
    ∷ thread_step 4
    ∷ receive_event 5 accepted
    ∷ thread_step 6
    ∷ thread_step 7
    ∷ thread_step 7
    ∷ thread_step 8
    ∷ speech_event "a" voice_output (pos 1) null (pos 6000)
    ∷ thread_step 8
    ∷ thread_step 9
    ∷ thread_step 10
    ∷ thread_step 11
    ∷ receive_event 12 completed
    ∷ thread_step 13
    ∷ thread_step 14
    ∷ thread_step 14
    ∷ thread_step 15
    ∷ []

abbrev final : System
final = run events (started 0)

abbrev spoken : Speech
spoken = record { session_id = "s"; action_id = "a"; resource = voice_output; lease_token = pos 1 }

final-outcomes : final.outcomes ≡ (speech spoken 0, done) ∷ (control "m" 0, done) ∷ []
unfolding run step advance run_thread opening receiving open_session take_ack take_completion strip
final-outcomes = refl

run-IsEnded_example : All (IsEnded final.acks final.completions) final.outcomes
run-IsEnded_example = run-IsEnded 0 events

-- A session with a call that begins.
abbrev begun : System
begun = run (open_event 1 "s" ∷ authorize_event "m" lease ∷ []) (started 0)

-- Neither acknowledged nor told of an end, and the time is up.
abbrev late : ℕ × Answer × System
late = (9, record { raised = none; time_is_up = true; is_cancelled = false }, begun)

abbrev late_steps : List (ℕ × Answer × System)
late_steps = late ∷ late ∷ late ∷ late ∷ late ∷ late ∷ late ∷ late ∷ late ∷ []

abbrev caller : Thread
caller = entering "m" accepted

walk-finished_example : walk late_steps caller ≡ finished
walk-finished_example = walk-finished late_steps caller (ground arith) (omega arith)
