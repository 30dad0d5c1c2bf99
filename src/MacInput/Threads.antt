-- ===== src/MacInput/Threads.antt =====
-- The threads inside the methods of mac_input_transport.py, in any interleaving.
use vrc_agent.Prelude.{
  ℕ, zero, suc, ◌+◌, String, Bool, true, false, Option, none, some, List, [], ◌∷◌, nat_eq,
  string_eq, Result, ok, err,
}
use vrc_agent.MacInput.{
  Note, audio_handler_failed, request_send_failed, request_timed_out, Receiver, ReceiverError, init,
  open_session, close_session, take_audio, take_response, take_heartbeat, stale, take_request,
  leave_request, record_error,
}
use vrc_agent.Input.{Sender}
use vrc_agent.Input.Threads.{Answer, gave, threw, count_open}
use vrc_agent.Protocol.Messages.{
  Message, audio_chunk, screenshot_response, heartbeat, AudioChunk, ScreenshotRequest,
  ScreenshotResponse,
}
use vrc_agent.Waiting.{Pending}
use vrc_agent.Prelude.Dict.{lookup}

-- How a call of `request_screenshot` ends; `not_recorded` is its last error text.
pub data Outcome : Type 0 where
  picture : List ℕ → Outcome
  failed : Note → Outcome
  not_recorded : Outcome

-- Where a thread stands between two steps; a request has its id and its object's number.
pub data Thread : Type 0 where
  handling : AudioChunk → Thread
  handler_reporting : String → Thread
  sending : Sender → ScreenshotRequest → ℕ → Thread
  waiting reading : String → ℕ → Thread
  reporting : String → ℕ → Note → Thread
  leaving : String → ℕ → Outcome → Thread
  finished : Thread

-- The receiver, the threads, and what has happened, the newest first: calls of `open_session` that
-- returned, chunks that were accepted, each with the number of the open session, responses that were
-- accepted, and how requests ended.
pub record System : Type 0 where
  pub receiver : Receiver
  pub threads : List Thread
  pub opened : ℕ
  pub chunks : List (ℕ × AudioChunk)
  pub responses : List ScreenshotResponse
  pub outcomes : List (String × Outcome)

abbrev pub started : ℕ → System
started now = record {
  receiver = init now;
  threads = [];
  opened = 0;
  chunks = [];
  responses = [];
  outcomes = [];
}

abbrev on_receiver : (Receiver → Receiver) → System → System
on_receiver f s = record s { receiver = f s.receiver }

abbrev pub outcome_from : Option (List ℕ) → Outcome
outcome_from none = not_recorded
outcome_from (some jpeg) = picture jpeg

-- What `request_screenshot` makes of its object once it was set.
abbrev pub outcome_of : Option Note → Option ScreenshotResponse → Outcome
outcome_of (some note) response = failed note
outcome_of none none = not_recorded
outcome_of none (some m) = outcome_from m.jpeg

abbrev pub is_set_at : Option (Pending String ScreenshotResponse Note) → Bool
is_set_at none = false
is_set_at (some p) = p.is_set

abbrev pub outcome_at : Option (Pending String ScreenshotResponse Note) → Outcome
outcome_at none = not_recorded
outcome_at (some p) = outcome_of p.error p.response

-- The wait returns: the object was set, or the time was up; `gave` is a look before that.
abbrev pub waited : Bool → Answer → String → ℕ → Thread
waited true a id n = reading id n
waited false (gave _) id n = waiting id n
waited false (threw _) id n = reporting id n (request_timed_out id)

-- One step of a thread: a call outside the lock, which the answer is of, or a locked region.
unfoldable pub advance : ℕ → Answer → Thread → System → Thread × System
unfolding leave_request
advance now (gave _) (handling m) s = (finished, s)
advance now (threw exc) (handling m) s = (handler_reporting exc, s)
advance now a (handler_reporting exc) s =
    (finished, on_receiver (record_error now (audio_handler_failed exc)) s)
advance now (gave _) (sending sender q n) s = (waiting q.request_id n, s)
advance now (threw exc) (sending sender q n) s =
    (reporting q.request_id n (request_send_failed exc), s)
advance now a (waiting id n) s = (waited (is_set_at (lookup n s.receiver.pending.store)) a id n, s)
advance now a (reading id n) s = (leaving id n (outcome_at (lookup n s.receiver.pending.store)), s)
advance now a (reporting id n note) s =
    (leaving id n (failed note), on_receiver (record_error now note) s)
advance now a (leaving id n outcome) s = (
  finished,
  record s { receiver = leave_request now id n s.receiver; outcomes = (id, outcome) ∷ s.outcomes },
)
advance now a finished s = (finished, s)

-- What can happen next: a call of a method, or a step of the thread at a place of the list.
pub data Event : Type 0 where
  open_event : ℕ → String → Event
  close_event : ℕ → String → String → Event
  request_event : String → Event
  receive_event : ℕ → Message → Event
  thread_event : ℕ → ℕ → Answer → Event

unfoldable pub opening : ℕ → String → System → System
unfolding open_session
opening now id s =
    let (r, t) = open_session now id (s.opened + 1) s.receiver in
    record s { receiver = t; opened = count_open r s.opened }

abbrev pub audio_thread : AudioChunk → System → Bool × Receiver → System
audio_thread m s (false, t) = record s { receiver = t }
audio_thread m s (true, t) = record s {
  receiver = t;
  chunks = (s.opened, m) ∷ s.chunks;
  threads = handling m ∷ s.threads;
}

abbrev pub note_response : ScreenshotResponse → System → Bool × Receiver → System
note_response m s (false, t) = record s { receiver = t }
note_response m s (true, t) = record s { receiver = t; responses = m ∷ s.responses }

-- `receive`
unfoldable pub receiving : ℕ → Message → System → System
unfolding take_audio take_response take_heartbeat
receiving now (audio_chunk m) s = audio_thread m s (take_audio now m s.receiver)
receiving now (screenshot_response m) s = note_response m s (take_response now m s.receiver)
receiving now (heartbeat m) s = record s { receiver = (take_heartbeat now m s.receiver).1 }
receiving now _ s = record s { receiver = stale now s.receiver }

-- A request that got into the table goes on outside the lock; the others raise.
abbrev pub request_thread :
    ℕ → System → Result ReceiverError (Sender × ScreenshotRequest) × Receiver → System
request_thread n s (err e, t) = s
request_thread n s (ok (sender, q), t) = record s {
  receiver = t;
  threads = sending sender q n ∷ s.threads;
}

unfoldable pub run_thread : ℕ → Answer → ℕ → List Thread → System → List Thread × System
unfolding advance
run_thread now a n [] s = ([], s)
run_thread now a zero (t ∷ ts) s = let (t', s') = advance now a t s in (t' ∷ ts, s')
run_thread now a (suc n) (t ∷ ts) s = let (ts', s') = run_thread now a n ts s in (t ∷ ts', s')

unfoldable pub step : Event → System → System
unfolding opening close_session receiving take_request run_thread
step (open_event now id) s = opening now id s
step (close_event now id reason) s = record s {
  receiver = (close_session now id reason s.receiver).1;
}
step (request_event id) s = request_thread s.receiver.pending.made s (take_request id s.receiver)
step (receive_event now m) s = receiving now m s
step (thread_event n now a) s =
    let (ts, s') = run_thread now a n s.threads s in record s' { threads = ts }

unfoldable pub run : List Event → System → System
unfolding step
run [] s = s
run (e ∷ es) s = run es (step e s)
