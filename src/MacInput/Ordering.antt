-- ===== src/MacInput/Ordering.antt =====
-- The order of the chunks that mac_input_transport.py accepts, and the ones it counts as missing.
use vrc_agent.Prelude.Int.{ℤ, ◌<ℤ◌}
use vrc_agent.Prelude.{
  ℕ, zero, suc, ◌+◌, ◌≤◌, ◌<◌, String, ◌≡◌, ◌⊎◌, inl, inr, refl, false, not, ◌||◌, Option, none,
  some, List, [], ◌∷◌, arith, nat_eq, string_eq, ◌==◌, if◌then◌else◌, is_value, is_value_iff,
  Bool-cases, All,
}
use vrc_agent.MacInput.{
  Receiver, open_session, close_session, take_audio, take_response, take_heartbeat, missing,
  not_newer, above, take_request, leave_request,
}
use vrc_agent.MacInput.Threads.{
  Thread, System, started, advance, run_thread, opening, receiving, audio_thread, note_response,
  step, run, Event, open_event, close_event, request_event, receive_event, thread_event,
}
use vrc_agent.Input.Threads.{Answer}
use vrc_agent.Protocol.Messages.{
  Message, audio_chunk, screenshot_response, heartbeat, AudioChunk, ScreenshotResponse, hello,
  session_open, authorize, output_neutralize, output_data, ack, output_completed,
  screenshot_request,
}

abbrev Numbered : Type 0
Numbered = ℕ × AudioChunk

-- Of two chunks: the other session was opened earlier, or it is the same and its chunk has a lower
-- sequence number.
abbrev pub IsAfter : Numbered → Numbered → Type 0
IsAfter (k, c) (j, d) = (j < k) ⊎ ((j ≡ k) × (d.sequence <ℤ c.sequence))

-- Every chunk is after all the older ones.
abbrev pub IsOrdered : List Numbered → Type 0
IsOrdered [] = Unit
IsOrdered (x ∷ older) = All (IsAfter x) older × IsOrdered older

-- The number of sequence numbers from the first to the last chunk of each session that was opened.
abbrev span_to : Numbered → List Numbered → ℕ
span_to (k, c) [] = 1
span_to (k, c) ((j, d) ∷ older) = if j == k then above d.sequence c.sequence else 1

abbrev pub span : List Numbered → ℕ
span [] = 0
span (x ∷ older) = span_to x older + span older

-- The number of the last chunk, if the k-th session had one.
abbrev newest : ℕ → List Numbered → Option ℤ
newest k [] = none
newest k ((j, d) ∷ older) = if j == k then some d.sequence else none

abbrev newest_number : List Numbered → ℕ
newest_number [] = 0
newest_number ((j, d) ∷ older) = j

-- Where a session is open, the receiver knows its last chunk.
abbrev Known : Option String → Option ℤ → Option ℤ → Type 0
Known none last known = Unit
Known (some id) last known = last ≡ known

abbrev Tracked : Receiver → ℕ → List Numbered → Type 0
Tracked r k chunks =
    Known r.session_id r.last_audio_sequence (newest k chunks)
    × (newest_number chunks ≤ k)
    × IsOrdered chunks
    × (r.audio_chunks_received + r.missing_audio_chunks ≡ span chunks)

abbrev IsTracked : System → Type 0
IsTracked s = Tracked s.receiver s.opened s.chunks

IsAfter-trans : (x y z : Numbered) → IsAfter x y → IsAfter y z → IsAfter x z
IsAfter-trans x y z h g = ground (arith, h, g)

All-IsAfter :
    (x y : Numbered) (older : List Numbered)
    → IsAfter x y
    → All (IsAfter y) older
    → All (IsAfter x) older
All-IsAfter x y [] h g = tt
All-IsAfter x y (z ∷ older) h g = (IsAfter-trans x y z h g.0, All-IsAfter x y older h g.1)

-- A chunk of the k-th session that is newer than its last one is after all.
newest-IsAfter :
    (k : ℕ) (c : AudioChunk) (chunks : List Numbered)
    → newest_number chunks ≤ k
    → not_newer (newest k chunks) c.sequence ≡ false
    → IsOrdered chunks
    → All (IsAfter (k, c)) chunks
newest-IsAfter k c [] le newer o = tt
newest-IsAfter k c ((j, d) ∷ older) le newer o =
    let first : IsAfter (k, c) (j, d) = ground (arith, le, newer) in
    (first, All-IsAfter (k, c) (j, d) older first o.0)

missing-span :
    (k : ℕ) (c : AudioChunk) (chunks : List Numbered)
    → not_newer (newest k chunks) c.sequence ≡ false
    → 1 + missing (newest k chunks) c.sequence ≡ span_to (k, c) chunks
missing-span k c [] newer = refl
missing-span k c ((j, d) ∷ older) newer = ground (arith, newer)

-- The session is open and its last chunk is the one that is known.
accepted-last :
    (m : AudioChunk) (r : Receiver) (known : Option ℤ)
    → Known r.session_id r.last_audio_sequence known
    → (not (is_value m.session_id r.session_id) || not_newer r.last_audio_sequence m.sequence)
      ≡ false
    → (r.last_audio_sequence ≡ known) × (not_newer known m.sequence ≡ false)
accepted-last m r known h e = ground (arith, h, is_value_iff m.session_id r.session_id)

audio-IsTracked :
    (now : ℕ) (m : AudioChunk) (s : System)
    → IsTracked s
    → IsTracked (audio_thread m s (take_audio now m s.receiver))
unfolding take_audio
audio-IsTracked now m s (known, le, ordered, counted) =
    elim (Bool-cases (
      not (is_value m.session_id s.receiver.session_id)
      || not_newer s.receiver.last_audio_sequence m.sequence)) [
        | inl refused ↦ rw refused (known, le, ordered, counted)
        | inr good ↦
            let (last, newer) = accepted-last m s.receiver (newest s.opened s.chunks) known good in
            let step = missing-span s.opened m s.chunks newer in
            rw good (
              ground arith,
              omega arith,
              (newest-IsAfter s.opened m s.chunks le newer ordered, ordered),
              ground (arith, last, step, counted),
            )
      ]

response-IsTracked :
    (now : ℕ) (m : ScreenshotResponse) (s : System)
    → IsTracked s
    → IsTracked (note_response m s (take_response now m s.receiver))
unfolding take_response
response-IsTracked now m s h = ground (arith, h)

receiving-IsTracked :
    (now : ℕ) (m : Message) (s : System) → IsTracked s → IsTracked (receiving now m s)
unfolding receiving take_heartbeat
receiving-IsTracked now (audio_chunk m) s h = audio-IsTracked now m s h
receiving-IsTracked now (screenshot_response m) s h = response-IsTracked now m s h
receiving-IsTracked now (heartbeat m) s h = ground (arith, h)
receiving-IsTracked now (hello m) s h = h
receiving-IsTracked now (session_open m) s h = h
receiving-IsTracked now (authorize m) s h = h
receiving-IsTracked now (output_neutralize m) s h = h
receiving-IsTracked now (output_data m) s h = h
receiving-IsTracked now (ack m) s h = h
receiving-IsTracked now (output_completed m) s h = h
receiving-IsTracked now (screenshot_request m) s h = h

-- A session that is opened has had no chunk yet.
newest-none : (k : ℕ) (chunks : List Numbered) → newest_number chunks < k → newest k chunks ≡ none
newest-none k [] lt = refl
newest-none k ((j, d) ∷ older) lt = ground (arith, lt)

opening-IsTracked :
    (now : ℕ) (id : String) (s : System) → IsTracked s → IsTracked (opening now id s)
unfolding opening open_session
opening-IsTracked now id s h =
    ground (arith, h, newest-none (s.opened + 1) s.chunks (omega (arith, h.1)))

closing-IsTracked :
    (now : ℕ) (id reason : String) (s : System)
    → IsTracked s
    → IsTracked (step (close_event now id reason) s)
unfolding step close_session
closing-IsTracked now id reason s h = ground (arith, h)

request-IsTracked : (id : String) (s : System) → IsTracked s → IsTracked (step (request_event id) s)
unfolding step take_request
request-IsTracked id s h = ground (arith, h)

advance-IsTracked :
    (now : ℕ) (a : Answer) (t : Thread) (s : System) → IsTracked s → IsTracked (advance now a t s).1
unfolding advance leave_request
advance-IsTracked now a t s h = ground (arith, h)

run_thread-IsTracked :
    (now : ℕ) (a : Answer) (n : ℕ) (ts : List Thread) (s : System)
    → IsTracked s
    → IsTracked (run_thread now a n ts s).1
unfolding run_thread
run_thread-IsTracked now a n [] s h = h
run_thread-IsTracked now a zero (t ∷ ts) s h = advance-IsTracked now a t s h
run_thread-IsTracked now a (suc n) (t ∷ ts) s h = run_thread-IsTracked now a n ts s h

step-IsTracked : (e : Event) (s : System) → IsTracked s → IsTracked (step e s)
unfolding step
step-IsTracked (open_event now id) s h = opening-IsTracked now id s h
step-IsTracked (close_event now id reason) s h = closing-IsTracked now id reason s h
step-IsTracked (request_event id) s h = request-IsTracked id s h
step-IsTracked (receive_event now m) s h = receiving-IsTracked now m s h
step-IsTracked (thread_event n now a) s h = run_thread-IsTracked now a n s.threads s h

run-IsTracked : (es : List Event) (s : System) → IsTracked s → IsTracked (run es s)
unfolding run
run-IsTracked [] s h = h
run-IsTracked (e ∷ es) s h = run-IsTracked es (step e s) (step-IsTracked e s h)

-- However the calls and their threads interleave, the chunks that were accepted are in order, those of
-- a session by rising sequence numbers and the sessions as they were opened, and the chunks counted as
-- received and as missing are together the sequence numbers from the first to the last chunk of each
-- session.
pub run-IsOrdered :
    (start : ℕ) (es : List Event)
    → (let s = run es (started start) in
        IsOrdered s.chunks
        × (s.receiver.audio_chunks_received + s.receiver.missing_audio_chunks ≡ span s.chunks))
run-IsOrdered start es =
    let (_, _, ordered, counted) = run-IsTracked es (started start) (tt, ground arith, tt, refl) in
    (ordered, counted)
