-- ===== src/Input/Threads.antt =====
-- The threads inside the methods of windows_input_transport.py, in any interleaving.
use vrc_agent.Prelude.Int.{ℤ}
use vrc_agent.Prelude.{
  err, none, [], zero, suc, ◌+◌, ok, ℕ, some, String, ◌∷◌, Option, List, Result,
}
use vrc_agent.Input.{
  init, touch, open_session, close_session, audio_message, response_message, beat_message,
  audio_send_failed, response_send_failed, capture_failed, live, first_1000, InputError,
  count_screenshot, audio_error, ScreenshotResponse, count_sent, take_beat, Beat, record_error,
  request_sender, AudioChunk, Message, Transport, ScreenshotRequest, take_chunk, Sender,
}

-- Where a thread stands between two steps.
pub data Thread : Type 0 where
  audio_sending : Sender → AudioChunk → Thread
  audio_counting : Thread
  audio_failing audio_reporting : String → Thread
  shot_capturing : Sender → ScreenshotRequest → Thread
  shot_failing : Sender → ScreenshotRequest → String → Thread
  shot_sending : Sender → ScreenshotResponse → Thread
  shot_counting : Thread
  shot_reporting : String → Thread
  beat_sending : Sender → Beat → Thread
  beat_touching : Thread
  finished : Thread

-- What the call of a sender or of the screenshot provider did.
pub data Answer : Type 0 where
  gave : List ℕ → Answer
  threw : String → Answer

-- The transport, the threads, and what has happened: calls of `open_session` that returned, calls of
-- `publish_audio` that did not raise, chunks that took a number, and messages that a sender was called
-- with, the newest first.
pub record System : Type 0 where
  pub transport : Transport
  pub threads : List Thread
  pub opened : ℕ
  pub published : ℕ
  pub issued : List (Sender × AudioChunk)
  pub delivered : List (Sender × Message)

abbrev pub started : ℕ → System
started now = record {
  transport = init now;
  threads = [];
  opened = 0;
  published = 0;
  issued = [];
  delivered = [];
}

abbrev on_transport : (Transport → Transport) → System → System
on_transport f s = record s { transport = f s.transport }

abbrev deliver : Sender → Message → System → System
deliver sender m s = record s { delivered = (sender, m) ∷ s.delivered }

-- What `handle_screenshot_request` answers.
abbrev response : ScreenshotRequest → List ℕ → ScreenshotResponse
response q jpeg = record {
  request_id = q.request_id;
  session_id = q.session_id;
  jpeg = some jpeg;
  error = none;
}

abbrev failure : ScreenshotRequest → String → ScreenshotResponse
failure q exc = record {
  request_id = q.request_id;
  session_id = q.session_id;
  jpeg = none;
  error = some (first_1000 (capture_failed exc));
}

-- The provider's bytes have to be some.
abbrev captured : Sender → ScreenshotRequest → List ℕ → Thread
captured sender q [] =
    shot_failing sender q "RuntimeError: screenshot provider returned no JPEG data"
captured sender q (b ∷ bytes) = shot_sending sender (response q (b ∷ bytes))

-- One step of a thread: a call outside the lock, which the answer is of, or a locked region.
unfoldable pub advance : ℕ → Answer → Thread → System → Thread × System
unfolding touch record_error count_sent count_screenshot
advance now (gave _) (audio_sending sender c) s =
    (audio_counting, deliver sender (audio_message c) s)
advance now (threw exc) (audio_sending sender c) s =
    (audio_failing exc, deliver sender (audio_message c) s)
advance now _ audio_counting s = (finished, on_transport (count_sent now) s)
advance now _ (audio_failing exc) s = (
  audio_reporting exc,
  on_transport (λ t. record t { audio_chunks_dropped = t.audio_chunks_dropped + 1 }) s,
)
advance now _ (audio_reporting exc) s =
    (finished, on_transport (record_error now (audio_send_failed exc)) s)
advance now (gave bytes) (shot_capturing sender q) s = (captured sender q bytes, s)
advance now (threw exc) (shot_capturing sender q) s = (shot_failing sender q exc, s)
advance now _ (shot_failing sender q exc) s =
    (shot_sending sender (failure q exc), on_transport (record_error now (capture_failed exc)) s)
advance now (gave _) (shot_sending sender r) s =
    (shot_counting, deliver sender (response_message r) s)
advance now (threw exc) (shot_sending sender r) s =
    (shot_reporting exc, deliver sender (response_message r) s)
advance now _ shot_counting s = (finished, on_transport (count_screenshot now) s)
advance now _ (shot_reporting exc) s =
    (finished, on_transport (record_error now (response_send_failed exc)) s)
advance now (gave _) (beat_sending sender b) s = (beat_touching, deliver sender (beat_message b) s)
advance now (threw exc) (beat_sending sender b) s = (finished, deliver sender (beat_message b) s)
advance now _ beat_touching s = (finished, on_transport (touch now) s)
advance now _ finished s = (finished, s)

-- What can happen next: a call of a method, or a step of the thread at a place of the list.
pub data Event : Type 0 where
  open_event close_event : ℕ → String → Event
  publish_event : ℕ → List ℕ → ℤ → Event
  request_event : ScreenshotRequest → Event
  beat_event : Event
  thread_event : ℕ → ℕ → Answer → Event

abbrev pub count_open : {E : Type 0} → Result E (Unit {0}) → ℕ → ℕ
count_open (ok _) n = n + 1
count_open (err e) n = n

unfoldable pub opening : ℕ → String → System → System
unfolding open_session
opening now id s =
    let (r, t) = open_session now id (s.opened + 1) s.transport in
    record s { transport = t; opened = count_open r s.opened }

abbrev pub publish_chunk : System → Option (Sender × AudioChunk) × Transport → System
publish_chunk s (none, t) = record s { transport = t; published = s.published + 1 }
publish_chunk s (some (sender, c), t) = record s {
  transport = t;
  published = s.published + 1;
  issued = (sender, c) ∷ s.issued;
  threads = audio_sending sender c ∷ s.threads;
}

abbrev publish_checked : ℕ → List ℕ → ℤ → System → Option InputError → System
publish_checked now pcm captured s (some e) = s
publish_checked now pcm captured s none =
    publish_chunk s
      (take_chunk now pcm captured s.transport (live s.transport.session_id s.transport.sender))

unfoldable pub publishing : ℕ → List ℕ → ℤ → System → System
unfolding take_chunk
publishing now pcm captured s = publish_checked now pcm captured s (audio_error pcm captured)

abbrev pub request_thread : ScreenshotRequest → System → Option Sender → System
request_thread q s none = s
request_thread q s (some sender) = record s { threads = shot_capturing sender q ∷ s.threads }

abbrev pub beat_thread : System → Option (Sender × Beat) × Transport → System
beat_thread s (none, t) = record s { transport = t }
beat_thread s (some (sender, b), t) = record s {
  transport = t;
  threads = beat_sending sender b ∷ s.threads;
}

-- The thread at a place takes its step; a place past the end has none.
unfoldable pub run_thread : ℕ → Answer → ℕ → List Thread → System → List Thread × System
unfolding advance
run_thread now a n [] s = ([], s)
run_thread now a zero (t ∷ ts) s = let (t', s') = advance now a t s in (t' ∷ ts, s')
run_thread now a (suc n) (t ∷ ts) s = let (ts', s') = run_thread now a n ts s in (t ∷ ts', s')

unfoldable pub step : Event → System → System
unfolding opening publishing close_session request_sender take_beat run_thread
step (open_event now id) s = opening now id s
step (close_event now id) s = record s { transport = (close_session now id s.transport).1 }
step (publish_event now pcm captured) s = publishing now pcm captured s
step (request_event q) s = request_thread q s (request_sender q s.transport)
step beat_event s =
    beat_thread s (take_beat s.transport (live s.transport.session_id s.transport.sender))
step (thread_event n now a) s =
    let (ts, s') = run_thread now a n s.threads s in record s' { threads = ts }

unfoldable pub run : List Event → System → System
unfolding step
run [] s = s
run (e ∷ es) s = run es (step e s)
