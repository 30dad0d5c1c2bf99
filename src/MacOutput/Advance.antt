-- ===== src/MacOutput/Advance.antt =====
-- The threads inside the methods of mac_output_transport.py, between two of their steps.
use vrc_agent.Prelude.{
  ℕ, String, Bool, true, false, not, ◌&&◌, Option, none, some, List, [], ◌∷◌, nat_eq, string_eq,
  ◌==◌, if◌then◌else◌,
}
use vrc_agent.MacOutput.{
  Note, send_failed, ack_timed_out, ack_rejected, playback_timed_out, playback_failed,
  playback_cancelled, told, Speech, speech_eq, Output, init, record_error, count_sent, leave_ack,
  leave_completion,
}
use vrc_agent.Waiting.{Pending, enter}
use vrc_agent.Json.{Value}
use vrc_agent.Prelude.Int.{ℤ, pos}
use vrc_agent.Input.{Sender, live}
use vrc_agent.Protocol.Messages.{Message, output_data, Ack, OutputCompleted}
use vrc_agent.Contracts.{resource_eq}
use vrc_agent.Prelude.Dict.{lookup}

-- What a call waits for: an acknowledgement or a completion, each with its object's number, or nothing.
pub data Job : Type 0 where
  control : String → ℕ → Job
  speech : Speech → ℕ → Job
  pose : Job

-- How a call ends. `stopped` is speech whose cancel event was set while it waited.
pub data Outcome : Type 0 where
  done stopped : Outcome
  failed : Note → Outcome
  not_connected not_recorded : Outcome

-- Where a thread stands between two steps. `entering` has passed `_require_session_id` and is about to
-- enter its object; `reading` is about to read the object's error, and `judging` its response.
pub data Thread : Type 0 where
  entering : String → Message → Thread
  entering_speech : Value → ℤ → Speech → Thread
  acquiring : Message → Job → Thread
  sending : Sender → Message → Job → Thread
  counting : Job → Thread
  waiting reading judging : Job → Thread
  reporting : Job → Note → Thread
  leaving : Job → Outcome → Thread
  finished : Thread

-- What the sender did, or how a wait went on: whether its time is up, and whether the cancel event of
-- speech is set.
pub record Answer : Type 0 where
  pub raised : Option String
  pub time_is_up : Bool
  pub is_cancelled : Bool

-- The transport, the threads, and what has happened, the newest first: calls of `open_session` that
-- returned, answers that were accepted, and how calls ended.
pub record System : Type 0 where
  pub output : Output
  pub threads : List Thread
  pub opened : ℕ
  pub acks : List Ack
  pub completions : List OutputCompleted
  pub outcomes : List (Job × Outcome)

abbrev pub started : ℕ → System
started now = record {
  output = init now;
  threads = [];
  opened = 0;
  acks = [];
  completions = [];
  outcomes = [];
}

abbrev pub on_output : (Output → Output) → System → System
on_output f s = record s { output = f s.output }

abbrev pub is_set_at {ℓ} : {K R E : Type ℓ} → Option (Pending K R E) → Bool
is_set_at none = false
is_set_at (some p) = p.is_set

-- The object of a job was set; a pose has none.
abbrev pub job_is_set : Job → Output → Bool
job_is_set (control id n) o = is_set_at (lookup n o.acks.store)
job_is_set (speech k n) o = is_set_at (lookup n o.completions.store)
job_is_set pose o = true

-- The wait's turn while the object is not set.
abbrev pub waited_on : Job → Answer → Thread
waited_on (control id n) a =
    if a.time_is_up then reporting (control id n) (ack_timed_out id) else waiting (control id n)
waited_on (speech k n) a =
    if a.is_cancelled
    then leaving (speech k n) stopped
    else if a.time_is_up
    then reporting (speech k n) playback_timed_out
    else waiting (speech k n)
waited_on pose a = leaving pose done

abbrev pub or_rejected : Option String → String
or_rejected none = "rejected"
or_rejected (some reason) = reason

-- `if pending.error is not None`
abbrev pub error_thread : Job → Option Note → Thread
error_thread j (some note) = leaving j (failed note)
error_thread j none = judging j

abbrev pub error_at {ℓ} : {K R E : Type ℓ} → Option (Pending K R E) → Option E
error_at none = none
error_at (some p) = p.error

abbrev pub read_error : Job → Output → Thread
read_error (control id n) o = error_thread (control id n) (error_at (lookup n o.acks.store))
read_error (speech k n) o = error_thread (speech k n) (error_at (lookup n o.completions.store))
read_error pose o = leaving pose done

-- What a control call makes of its acknowledgement.
abbrev pub ack_thread : String → ℕ → Option Ack → Thread
ack_thread id n none = leaving (control id n) not_recorded
ack_thread id n (some m) =
    if m.accepted
    then leaving (control id n) done
    else reporting (control id n) (ack_rejected id (or_rejected m.reason))

abbrev pub failure_note : Option String → Note
failure_note none = playback_failed
failure_note (some e) = told e

-- What `play_wav` makes of its completion.
abbrev pub completion_outcome : Bool → Option OutputCompleted → Outcome
completion_outcome cancelled none = not_recorded
completion_outcome cancelled (some m) =
    if m.state == "failed"
    then failed (failure_note m.error)
    else if m.state == "cancelled" && not cancelled
    then failed playback_cancelled
    else done

abbrev pub read_ack : String → ℕ → Option (Pending String Ack Note) → Thread
read_ack id n none = leaving (control id n) not_recorded
read_ack id n (some p) = ack_thread id n p.response

abbrev pub read_completion : Bool → Option (Pending Speech OutputCompleted Note) → Outcome
read_completion cancelled none = not_recorded
read_completion cancelled (some p) = completion_outcome cancelled p.response

abbrev pub read_job : Job → Answer → Output → Thread
read_job (control id n) a o = read_ack id n (lookup n o.acks.store)
read_job (speech k n) a o =
    leaving (speech k n) (read_completion a.is_cancelled (lookup n o.completions.store))
read_job pose a o = leaving pose done

-- `_send_control` up to its first region; a repeated id takes the place of the older entry.
abbrev pub enter_control : String → Message → System → Thread × System
enter_control id m s = (
  acquiring m (control id s.output.acks.made),
  on_output (λ o. record o { acks = enter id o.acks }) s,
)

-- The first region of `play_wav`, and the message behind it; no `finally` is on a refusal's way.
abbrev pub enter_speech : Value → ℤ → Speech → System → Option ℕ → Thread × System
enter_speech payload ttl k s (some n) = (finished, s)
enter_speech payload ttl k s none = (
  acquiring
      (output_data (record {
        session_id = k.session_id;
        action_id = k.action_id;
        resource = k.resource;
        lease_token = k.lease_token;
        sequence = pos 0;
        ttl_ms = ttl;
        payload = payload;
      }))
      (speech k s.output.completions.made),
  on_output (λ o. record o { completions = enter k o.completions }) s,
)

abbrev pub leave_job : ℕ → Job → Output → Output
leave_job now (control id n) o = leave_ack now id n o
leave_job now (speech k n) o = leave_completion now k n o
leave_job now pose o = o

-- The first region of `_send`.
abbrev pub acquired : Message → Job → Option (String × Sender) → Thread
acquired m j none = leaving j not_connected
acquired m j (some (id, sender)) = sending sender m j

abbrev pub sent : Job → Option String → Thread
sent j none = counting j
sent j (some exc) = reporting j (send_failed exc)

-- One step of a thread: a call outside the lock, which the answer is of, or a locked region.
unfoldable pub advance : ℕ → Answer → Thread → System → Thread × System
advance now a (entering id m) s = enter_control id m s
advance now a (entering_speech payload ttl k) s =
    enter_speech payload ttl k s (lookup k s.output.completions.entries)
advance now a (acquiring m j) s = (acquired m j (live s.output.session_id s.output.sender), s)
advance now a (sending sender m j) s = (sent j a.raised, s)
advance now a (counting j) s = (waiting j, on_output (count_sent now) s)
advance now a (waiting j) s = (if job_is_set j s.output then reading j else waited_on j a, s)
advance now a (reading j) s = (read_error j s.output, s)
advance now a (judging j) s = (read_job j a s.output, s)
advance now a (reporting j note) s = (leaving j (failed note), on_output (record_error now note) s)
advance now a (leaving j outcome) s =
    (finished, record s { output = leave_job now j s.output; outcomes = (j, outcome) ∷ s.outcomes })
advance now a finished s = (finished, s)
