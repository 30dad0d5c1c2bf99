-- ===== src/Input/Delivery.antt =====
-- Whom the messages of windows_input_transport.py reach.
use vrc_agent.Input.Threads.{
  publish_chunk, request_thread, beat_thread, Thread, audio_sending, shot_capturing, shot_failing,
  shot_sending, beat_sending, Answer, System, started, advance, run_thread, opening, publishing,
  step, run, Event, open_event, close_event, publish_event, request_event, beat_event, thread_event,
}
use vrc_agent.Input.{
  ScreenshotRequest, Message, audio_message, response_message, beat_message, Transport, Sender,
  touch, record_error, count_sent, count_screenshot, open_session, close_session, take_chunk,
  take_beat, request_sender, live, audio_error,
}
use vrc_agent.Prelude.Int.{ℤ}
use vrc_agent.Prelude.{
  is_value_iff, arith, All, none, [], zero, suc, ℕ, some, String, ◌∷◌, Option, List, ◌≡◌, inl, inr,
  refl, Option-cases,
}

abbrev pub session_of_message : Message → String
session_of_message (audio_message c) = c.session_id
session_of_message (response_message r) = r.session_id
session_of_message (beat_message b) = b.session_id

-- The sender was opened for the session that the message carries.
abbrev pub IsOwn : Sender × Message → Type 0
IsOwn (sender, m) = sender.opened_for ≡ session_of_message m

-- What a thread holds to send.
abbrev ThreadOk : Thread → Type 0
ThreadOk (audio_sending sender c) = sender.opened_for ≡ c.session_id
ThreadOk (shot_capturing sender q) = sender.opened_for ≡ q.session_id
ThreadOk (shot_failing sender q exc) = sender.opened_for ≡ q.session_id
ThreadOk (shot_sending sender r) = sender.opened_for ≡ r.session_id
ThreadOk (beat_sending sender b) = sender.opened_for ≡ b.session_id
ThreadOk _ = Unit

-- The sender is that of the session that is open.
abbrev Paired : Option String → Option Sender → Type 0
Paired id none = id ≡ none
Paired id (some sender) = id ≡ some sender.opened_for

abbrev IsPaired : Transport → Type 0
IsPaired t = Paired t.session_id t.sender

record IsRouted (s : System) : Type 0 where
  pub open_one : IsPaired s.transport
  pub held : All ThreadOk s.threads
  pub sent : All IsOwn s.delivered

advance-sent :
    (now : ℕ) (a : Answer) (t : Thread) (s : System)
    → ThreadOk t
    → All IsOwn s.delivered
    → ThreadOk (advance now a t s).0 × All IsOwn (advance now a t s).1.delivered
unfolding advance
advance-sent now a t s own sent = ground (arith, own, sent)

run_thread-sent :
    (now : ℕ) (a : Answer) (n : ℕ) (ts : List Thread) (s : System)
    → All ThreadOk ts
    → All IsOwn s.delivered
    → All ThreadOk (run_thread now a n ts s).0 × All IsOwn (run_thread now a n ts s).1.delivered
unfolding run_thread
run_thread-sent now a n [] s held sent = (tt, sent)
run_thread-sent now a zero (t ∷ ts) s held sent =
    let (own, sent') = advance-sent now a t s held.0 sent in ((own, held.1), sent')
run_thread-sent now a (suc n) (t ∷ ts) s held sent =
    let (held', sent') = run_thread-sent now a n ts s held.1 sent in ((held.0, held'), sent')

advance-IsPaired :
    (now : ℕ) (a : Answer) (t : Thread) (s : System)
    → IsPaired s.transport
    → IsPaired (advance now a t s).1.transport
unfolding advance touch record_error count_sent count_screenshot
advance-IsPaired now a t s p = ground (arith, p)

run_thread-IsPaired :
    (now : ℕ) (a : Answer) (n : ℕ) (ts : List Thread) (s : System)
    → IsPaired s.transport
    → IsPaired (run_thread now a n ts s).1.transport
unfolding run_thread
run_thread-IsPaired now a n [] s p = p
run_thread-IsPaired now a zero (t ∷ ts) s p = advance-IsPaired now a t s p
run_thread-IsPaired now a (suc n) (t ∷ ts) s p = run_thread-IsPaired now a n ts s p

live-own :
    (a : Option String) (b : Option Sender) (id : String) (x : Sender)
    → Paired a b
    → live a b ≡ some (id, x)
    → x.opened_for ≡ id
live-own a b id x p h = ground (arith, p)

request-own :
    (q : ScreenshotRequest) (t : Transport) (x : Sender)
    → IsPaired t
    → request_sender q t ≡ some x
    → x.opened_for ≡ q.session_id
unfolding request_sender
request-own q t x p h = ground (arith, p, is_value_iff q.session_id t.session_id)

opening-IsRouted : (now : ℕ) (id : String) (s : System) → IsRouted s → IsRouted (opening now id s)
unfolding opening open_session
opening-IsRouted now id s h = record {
  open_one = ground (arith, h.open_one);
  held = h.held;
  sent = h.sent;
}

closing-IsRouted :
    (now : ℕ) (id : String) (s : System) → IsRouted s → IsRouted (step (close_event now id) s)
unfolding step close_session
closing-IsRouted now id s h = record {
  open_one = ground (arith, h.open_one);
  held = h.held;
  sent = h.sent;
}

publish-IsRouted :
    (now : ℕ) (pcm : List ℕ) (ns : ℤ) (s : System) (o : Option (String × Sender))
    → live s.transport.session_id s.transport.sender ≡ o
    → IsRouted s
    → IsRouted (publish_chunk s (take_chunk now pcm ns s.transport o))
unfolding take_chunk touch
publish-IsRouted now pcm ns s none e h = record {
  open_one = h.open_one;
  held = h.held;
  sent = h.sent;
}
publish-IsRouted now pcm ns s (some (id, x)) e h = record {
  open_one = h.open_one;
  held = (live-own s.transport.session_id s.transport.sender id x h.open_one e, h.held);
  sent = h.sent;
}

publishing-IsRouted :
    (now : ℕ) (pcm : List ℕ) (ns : ℤ) (s : System) → IsRouted s → IsRouted (publishing now pcm ns s)
unfolding publishing
publishing-IsRouted now pcm ns s h = elim (Option-cases (audio_error pcm ns)) [
  | inl good ↦ rw good (publish-IsRouted now pcm ns s _ refl h)
  | inr (e, bad) ↦ rw bad h
]

request-IsRouted :
    (q : ScreenshotRequest) (s : System) (o : Option Sender)
    → request_sender q s.transport ≡ o
    → IsRouted s
    → IsRouted (request_thread q s o)
request-IsRouted q s none e h = h
request-IsRouted q s (some x) e h = record {
  open_one = h.open_one;
  held = (request-own q s.transport x h.open_one e, h.held);
  sent = h.sent;
}

beat-IsRouted :
    (s : System) (o : Option (String × Sender))
    → live s.transport.session_id s.transport.sender ≡ o
    → IsRouted s
    → IsRouted (beat_thread s (take_beat s.transport o))
unfolding take_beat
beat-IsRouted s none e h = h
beat-IsRouted s (some (id, x)) e h = record {
  open_one = h.open_one;
  held = (live-own s.transport.session_id s.transport.sender id x h.open_one e, h.held);
  sent = h.sent;
}

step-IsRouted : (e : Event) (s : System) → IsRouted s → IsRouted (step e s)
unfolding step
step-IsRouted (open_event now id) s h = opening-IsRouted now id s h
step-IsRouted (close_event now id) s h = closing-IsRouted now id s h
step-IsRouted (publish_event now pcm ns) s h = publishing-IsRouted now pcm ns s h
step-IsRouted (request_event q) s h = request-IsRouted q s (request_sender q s.transport) refl h
step-IsRouted beat_event s h =
    beat-IsRouted s (live s.transport.session_id s.transport.sender) refl h
step-IsRouted (thread_event n now a) s h =
    let (held, sent) = run_thread-sent now a n s.threads s h.held h.sent in
    record {
      open_one = run_thread-IsPaired now a n s.threads s h.open_one;
      held = held;
      sent = sent;
    }

run-IsRouted : (es : List Event) (s : System) → IsRouted s → IsRouted (run es s)
unfolding run
run-IsRouted [] s h = h
run-IsRouted (e ∷ es) s h = run-IsRouted es (step e s) (step-IsRouted e s h)

-- However the calls and their threads interleave, a sender is called only with messages of the session
-- that it was opened for, also after that session was closed and another one opened.
pub run-delivers : (start : ℕ) (es : List Event) → All IsOwn (run es (started start)).delivered
run-delivers start es =
    (run-IsRouted es (started start) (record { open_one = refl; held = tt; sent = tt })).sent
