-- ===== src/Input/Numbering.antt =====
-- The numbers of the audio chunks of windows_input_transport.py.
use vrc_agent.Input.Threads.{
  publish_chunk, Thread, Answer, System, started, advance, run_thread, opening, publishing, step,
  run, Event, open_event, close_event, publish_event, request_event, beat_event, thread_event,
}
use vrc_agent.Input.{
  AudioChunk, Sender, touch, record_error, count_sent, count_screenshot, open_session,
  close_session, take_chunk, take_beat, request_sender, live, audio_error,
}
use vrc_agent.Prelude.Int.{ℤ}
use vrc_agent.Prelude.{
  subst, arith, none, [], zero, suc, ◌+◌, ◌<◌, ℕ, some, String, ◌∷◌, Option, List, ◌≡◌, ◌⊎◌, inl,
  inr, refl, sym, Option-cases,
}

-- A chunk under the state in which `next` is the number to come in session `number`: it came just
-- before, or in an older session.
abbrev pub Follows : ℕ → ℕ → Sender → AudioChunk → Type 0
Follows number next sender c =
    ((sender.number ≡ number) × (next ≡ c.sequence + 1)) ⊎ ((sender.number < number) × (next ≡ 0))

-- Chunks, the newest first: in each session the numbers go down by one to 0, and older sessions stand
-- below newer ones.
pub Numbered : ℕ → ℕ → List (Sender × AudioChunk) → Type 0
Numbered number next [] = next ≡ 0
Numbered number next ((sender, c) ∷ rest) =
    Follows number next sender c × Numbered sender.number c.sequence rest

-- The session that is open, or the one that the next call opens.
abbrev session_number : Option Sender → ℕ → ℕ
session_number none opened = opened + 1
session_number (some sender) opened = opened

abbrev SenderOk : ℕ → ℕ → Option Sender → Type 0
SenderOk opened next none = next ≡ 0
SenderOk opened next (some sender) = sender.number ≡ opened

-- After a session, the next one starts from 0.
Numbered-later :
    (number later next : ℕ) (chunks : List (Sender × AudioChunk))
    → Numbered number next chunks
    → number < later
    → Numbered later 0 chunks
unfolding Numbered
Numbered-later number later next [] h p = refl
Numbered-later number later next ((sender, c) ∷ rest) h p = (inr (ground (arith, h.0), refl), h.1)

-- The parts of a system that the numbers depend on.
abbrev NumberedAt : Option Sender → ℕ → ℕ → List (Sender × AudioChunk) → Type 0
NumberedAt sender opened next chunks =
    SenderOk opened next sender × Numbered (session_number sender opened) next chunks

abbrev session_of : Option Sender → Option String
session_of none = none
session_of (some sender) = some sender.opened_for

-- What the threads leave alone.
abbrev View : Type 0
View = Option String × Option Sender × ℕ × ℕ × List (Sender × AudioChunk)

abbrev pub view : System → View
view s = (
  s.transport.session_id, s.transport.sender, s.opened, s.transport.next_audio_sequence, s.issued,
)

-- The sender is that of the session that is open, and the numbers agree with them.
abbrev ViewOk : View → Type 0
ViewOk (id, sender, opened, next, chunks) =
    (id ≡ session_of sender) × NumberedAt sender opened next chunks

abbrev pub IsNumbered : System → Type 0
IsNumbered s = ViewOk (view s)

-- Closing a session, or opening the next.
closed-NumberedAt :
    (sender : Option Sender) (opened next : ℕ) (chunks : List (Sender × AudioChunk))
    → NumberedAt sender opened next chunks
    → NumberedAt none opened 0 chunks
closed-NumberedAt none opened next chunks (e, h) = (refl, rw (sym e) h)
closed-NumberedAt (some sender) opened next chunks (e, h) =
    (refl, Numbered-later opened (opened + 1) next chunks h (omega arith))

pub advance-view :
    (now : ℕ) (a : Answer) (t : Thread) (s : System) → view (advance now a t s).1 ≡ view s
unfolding advance touch record_error count_sent count_screenshot
advance-view now a t s = ground arith

run_thread-view :
    (now : ℕ) (a : Answer) (n : ℕ) (ts : List Thread) (s : System)
    → view (run_thread now a n ts s).1 ≡ view s
unfolding run_thread
run_thread-view now a n [] s = refl
run_thread-view now a zero (t ∷ ts) s = advance-view now a t s
run_thread-view now a (suc n) (t ∷ ts) s = run_thread-view now a n ts s

view-IsNumbered : (s s' : System) → view s' ≡ view s → IsNumbered s → IsNumbered s'
view-IsNumbered s s' e n = subst ViewOk (sym e) n

issue-NumberedAt :
    (x : Sender) (opened next : ℕ) (chunks : List (Sender × AudioChunk)) (c : AudioChunk)
    → c.sequence ≡ next
    → NumberedAt (some x) opened next chunks
    → NumberedAt (some x) opened (next + 1) ((x, c) ∷ chunks)
unfolding Numbered
issue-NumberedAt x opened next chunks c e (n, h) = (n, (inl (n, rw e refl), rw (n, e) h))

live-some :
    (a : Option String) (b : Option Sender) (id : String) (x : Sender)
    → live a b ≡ some (id, x)
    → b ≡ some x
live-some a b id x h = ground arith

publish-IsNumbered :
    (now : ℕ) (pcm : List ℕ) (ns : ℤ) (s : System) (o : Option (String × Sender))
    → live s.transport.session_id s.transport.sender ≡ o
    → IsNumbered s
    → IsNumbered (publish_chunk s (take_chunk now pcm ns s.transport o))
unfolding take_chunk touch
publish-IsNumbered now pcm ns s none e h = h
publish-IsNumbered now pcm ns s (some (id, x)) e (paired, h) =
    let b = live-some s.transport.session_id s.transport.sender id x e in
    (
      paired,
      rw b
          (issue-NumberedAt x s.opened s.transport.next_audio_sequence s.issued _ refl (rw b at h)),
    )

publishing-IsNumbered :
    (now : ℕ) (pcm : List ℕ) (ns : ℤ) (s : System)
    → IsNumbered s
    → IsNumbered (publishing now pcm ns s)
unfolding publishing
publishing-IsNumbered now pcm ns s h = elim (Option-cases (audio_error pcm ns)) [
  | inl good ↦ rw good (publish-IsNumbered now pcm ns s _ refl h)
  | inr (e, bad) ↦ rw bad h
]

opening-IsNumbered :
    (now : ℕ) (id : String) (s : System) → IsNumbered s → IsNumbered (opening now id s)
unfolding opening open_session Numbered
opening-IsNumbered now id s h = ground (arith, h.0, h.1)

closing-IsNumbered :
    (now : ℕ) (id : String) (s : System) → IsNumbered s → IsNumbered (step (close_event now id) s)
unfolding step close_session
closing-IsNumbered now id s h = ground (
  arith,
  h.0,
  closed-NumberedAt s.transport.sender s.opened s.transport.next_audio_sequence s.issued h.1,
)

step-IsNumbered : (e : Event) (s : System) → IsNumbered s → IsNumbered (step e s)
unfolding step request_sender take_beat
step-IsNumbered (open_event now id) s h = opening-IsNumbered now id s h
step-IsNumbered (close_event now id) s h = closing-IsNumbered now id s h
step-IsNumbered (publish_event now pcm ns) s h = publishing-IsNumbered now pcm ns s h
step-IsNumbered (request_event q) s h = ground (arith, h)
step-IsNumbered beat_event s h = ground (arith, h)
step-IsNumbered (thread_event n now a) s h =
    view-IsNumbered s (run_thread now a n s.threads s).1 (run_thread-view now a n s.threads s) h

run-IsNumbered_from : (es : List Event) (s : System) → IsNumbered s → IsNumbered (run es s)
unfolding run
run-IsNumbered_from [] s h = h
run-IsNumbered_from (e ∷ es) s h = run-IsNumbered_from es (step e s) (step-IsNumbered e s h)

-- However the calls and their threads interleave, the chunks that took a number are numbered from 0
-- without a gap in each opened session, in the order in which they took it, and the counter of the
-- session that is open is the number after the last.
pub run-IsNumbered : (start : ℕ) (es : List Event) → IsNumbered (run es (started start))
unfolding Numbered
run-IsNumbered start es = run-IsNumbered_from es (started start) (refl, (refl, refl))
