-- ===== src/Input/Counting.antt =====
-- Every chunk of windows_input_transport.py is counted once, as sent or as dropped.
use vrc_agent.Input.Threads.{
  Thread, audio_sending, audio_counting, audio_failing, Answer, System, started, advance,
  run_thread, opening, publishing, step, run, Event, open_event, close_event, publish_event,
  request_event, beat_event, thread_event,
}
use vrc_agent.Input.{
  Transport, touch, record_error, count_sent, count_screenshot, open_session, close_session,
  take_chunk, take_beat, request_sender,
}
use vrc_agent.Prelude.Int.{ℤ}
use vrc_agent.Prelude.{arith, [], zero, suc, ◌+◌, ℕ, String, ◌∷◌, List, ◌≡◌, refl}

-- A thread that has a chunk which no counter has yet.
abbrev pub owes : Thread → ℕ
owes (audio_sending sender c) = 1
owes audio_counting = 1
owes (audio_failing exc) = 1
owes _ = 0

abbrev pub owed : List Thread → ℕ
owed [] = 0
owed (t ∷ ts) = owes t + owed ts

abbrev pub counted : Transport → ℕ
counted t = t.audio_chunks_sent + t.audio_chunks_dropped

abbrev pub IsCounted : System → Type 0
IsCounted s = counted s.transport + owed s.threads ≡ s.published

advance-counted :
    (now : ℕ) (a : Answer) (t : Thread) (s : System)
    → let (t', s') = advance now a t s in
      (counted s'.transport + owes t' ≡ counted s.transport + owes t) × (s'.published ≡ s.published)
unfolding advance touch record_error count_sent count_screenshot
advance-counted now a t s = ground arith

run_thread-counted :
    (now : ℕ) (a : Answer) (n : ℕ) (ts : List Thread) (s : System)
    → let (ts', s') = run_thread now a n ts s in
      (counted s'.transport + owed ts' ≡ counted s.transport + owed ts)
      × (s'.published ≡ s.published)
unfolding run_thread
run_thread-counted now a n [] s = (refl, refl)
run_thread-counted now a zero (t ∷ ts) s = omega (arith, advance-counted now a t s)
run_thread-counted now a (suc n) (t ∷ ts) s = omega (arith, run_thread-counted now a n ts s)

opening-IsCounted :
    (now : ℕ) (id : String) (s : System) → IsCounted s → IsCounted (opening now id s)
unfolding opening open_session
opening-IsCounted now id s c = ground arith

publishing-IsCounted :
    (now : ℕ) (pcm : List ℕ) (ns : ℤ) (s : System)
    → IsCounted s
    → IsCounted (publishing now pcm ns s)
unfolding publishing take_chunk touch
publishing-IsCounted now pcm ns s c = ground arith

step-IsCounted : (e : Event) (s : System) → IsCounted s → IsCounted (step e s)
unfolding step close_session request_sender take_beat
step-IsCounted (open_event now id) s c = opening-IsCounted now id s c
step-IsCounted (close_event now id) s c = ground arith
step-IsCounted (publish_event now pcm ns) s c = publishing-IsCounted now pcm ns s c
step-IsCounted (request_event q) s c = ground arith
step-IsCounted beat_event s c = ground arith
step-IsCounted (thread_event n now a) s c = omega (arith, run_thread-counted now a n s.threads s)

run-IsCounted_from : (es : List Event) (s : System) → IsCounted s → IsCounted (run es s)
unfolding run
run-IsCounted_from [] s c = c
run-IsCounted_from (e ∷ es) s c = run-IsCounted_from es (step e s) (step-IsCounted e s c)

-- However the calls and their threads interleave, and whatever the senders and the provider do: the
-- chunks counted as sent or as dropped, and those that a thread has still to count, are together as
-- many as the calls of `publish_audio` that did not raise.
pub run-IsCounted : (start : ℕ) (es : List Event) → IsCounted (run es (started start))
run-IsCounted start es = run-IsCounted_from es (started start) refl
