-- ===== src/MacOutput/Threads.antt =====
-- The threads inside the methods of mac_output_transport.py, in any interleaving.
use vrc_agent.Prelude.Int.{ℤ}
use vrc_agent.Prelude.{
  ℕ, zero, suc, ◌+◌, String, Bool, true, false, not, ◌||◌, Option, none, some, List, [], ◌∷◌,
  nat_eq, string_eq, ◌==◌, if◌then◌else◌, is_empty, Result, ok, err,
}
use vrc_agent.MacOutput.{
  speech_eq, Output, OutputError, open_session, close_session, take_ack, take_completion, stale,
  require_session_id,
}
use vrc_agent.Input.Threads.{count_open}
use vrc_agent.Protocol.Messages.{
  Message, ack, output_completed, authorize, output_neutralize, output_data, Ack, OutputCompleted,
}
use vrc_agent.Contracts.{ControlResource, resource_eq, SignedLease, voice_output, full_body_pose}
use vrc_agent.Json.{Value}
use vrc_agent.MacOutput.Advance.{
  entering, entering_speech, pose, Thread, acquiring, Answer, System, advance,
}

-- What can happen next: a call of a method, or a step of the thread at a place of the list. A control
-- call has what the id factory gave, speech and poses have their encoded payload, and speech the
-- milliseconds that its envelope lives.
pub data Event : Type 0 where
  open_event : ℕ → String → Event
  close_event : ℕ → String → String → Event
  authorize_event : String → SignedLease → Event
  neutralize_event : String → ControlResource → ℤ → Event
  pose_event : SignedLease → Value → ℤ → ℤ → Event
  speech_event : String → ControlResource → ℤ → Value → ℤ → Event
  receive_event : ℕ → Message → Event
  thread_event : ℕ → ℕ → Answer → Event

unfoldable pub opening : ℕ → String → System → System
unfolding open_session
opening now id s =
    let (r, o) = open_session now id (s.opened + 1) s.output in
    record s { output = o; opened = count_open r s.opened }

abbrev pub with_session : (String → System → System) → Result OutputError String → System → System
with_session f (err e) s = s
with_session f (ok id) s = f id s

-- A control call up to its message, which is made of the session's id.
abbrev pub controlling : String → (String → Message) → System → System
controlling id message s =
    with_session
      (λ session s.
        if is_empty id then s else record s { threads = entering id (message session) ∷ s.threads })
      (require_session_id s.output) s

abbrev pub pose_thread : SignedLease → String → Value → ℤ → ℤ → String → System → System
pose_thread lease action payload sequence ttl session s = record s {
  threads =
      acquiring
        (output_data (record {
          session_id = session;
          action_id = action;
          resource = lease.resource;
          lease_token = lease.token;
          sequence = sequence;
          ttl_ms = ttl;
          payload = payload;
        }))
        pose
      ∷ s.threads;
}

-- `send_pose`; a lease without an action is refused.
abbrev pub posing : SignedLease → Value → ℤ → ℤ → Option String → System → System
posing lease payload sequence ttl none s = s
posing lease payload sequence ttl (some action) s =
    if is_empty action || not (lease.resource == full_body_pose)
    then s
    else with_session (pose_thread lease action payload sequence ttl) (require_session_id s.output)
        s

-- `play_wav` up to its first region.
abbrev pub speech_thread : String → ControlResource → ℤ → Value → ℤ → String → System → System
speech_thread action r token payload ttl session s = record s {
  threads =
      entering_speech payload ttl
        (record { session_id = session; action_id = action; resource = r; lease_token = token })
      ∷ s.threads;
}

abbrev pub speaking : String → ControlResource → ℤ → Value → ℤ → System → System
speaking action r token payload ttl s =
    if not (r == voice_output)
    then s
    else with_session (speech_thread action r token payload ttl) (require_session_id s.output) s

abbrev pub note_ack : Ack → System → Bool × Output → System
note_ack m s (false, o) = record s { output = o }
note_ack m s (true, o) = record s { output = o; acks = m ∷ s.acks }

abbrev pub note_completion : OutputCompleted → System → Bool × Output → System
note_completion m s (false, o) = record s { output = o }
note_completion m s (true, o) = record s { output = o; completions = m ∷ s.completions }

-- `receive`
unfoldable pub receiving : ℕ → Message → System → System
unfolding take_ack take_completion
receiving now (ack m) s = note_ack m s (take_ack now m s.output)
receiving now (output_completed m) s = note_completion m s (take_completion now m s.output)
receiving now _ s = record s { output = stale now s.output }

unfoldable pub run_thread : ℕ → Answer → ℕ → List Thread → System → List Thread × System
unfolding advance
run_thread now a n [] s = ([], s)
run_thread now a zero (t ∷ ts) s = let (t', s') = advance now a t s in (t' ∷ ts, s')
run_thread now a (suc n) (t ∷ ts) s = let (ts', s') = run_thread now a n ts s in (t ∷ ts', s')

unfoldable pub step : Event → System → System
unfolding opening close_session receiving run_thread
step (open_event now id) s = opening now id s
step (close_event now id reason) s = record s { output = (close_session now id reason s.output).1 }
step (authorize_event id lease) s =
    controlling id
      (λ session. authorize (record { message_id = id; session_id = session; lease = lease })) s
step (neutralize_event id r token) s =
    controlling id
      (λ session.
        output_neutralize
          (record { message_id = id; session_id = session; resource = r; lease_token = token }))
      s
step (pose_event lease payload sequence ttl) s = posing lease payload sequence ttl lease.action_id s
step (speech_event action r token payload ttl) s = speaking action r token payload ttl s
step (receive_event now m) s = receiving now m s
step (thread_event n now a) s =
    let (ts, s') = run_thread now a n s.threads s in record s' { threads = ts }

unfoldable pub run : List Event → System → System
unfolding step
run [] s = s
run (e ∷ es) s = run es (step e s)
