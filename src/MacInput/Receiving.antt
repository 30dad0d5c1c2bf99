-- ===== src/MacInput/Receiving.antt =====
-- What mac_input_transport.py receives keeps the objects of its requests safe.
use vrc_agent.Prelude.{
  ℕ, String, ◌≡◌, inl, inr, refl, ap, ◌∙◌, Option, none, some, List, ◌∷◌, arith, nat_eq, string_eq,
  is_value, is_empty, Bool-cases, strip, All,
}
use vrc_agent.MacInput.{
  Note, told, with_response, open_session, close_session, take_audio, take_response, take_heartbeat,
  answer_pending,
}
use vrc_agent.MacInput.Threads.{
  System, opening, receiving, audio_thread, note_response, step, close_event,
}
use vrc_agent.MacInput.Holding.{IsGood, ThreadOk, IsSafe, All-IsAnswered, held-Stays, held-Grows}
use vrc_agent.Waiting.{Pending, Table, fail_all, change}
use vrc_agent.Waiting.Laws.{IsOf, IsGiven, update-Stays, fail_entries-Stays}
use vrc_agent.Waiting.Kept.{fail_all-IsKept, change-IsKept, IsKept-mono}
use vrc_agent.Protocol.Messages.{
  Message, audio_chunk, screenshot_response, heartbeat, AudioChunk, ScreenshotResponse, hello,
  session_open, authorize, output_neutralize, output_data, ack, output_completed,
  screenshot_request,
}
use vrc_agent.Prelude.Dict.{lookup}

-- A step that leaves the table and the logs.
abbrev pub Alike : System → System → Type 0
Alike s s' =
    (s'.receiver.pending ≡ s.receiver.pending)
    × (s'.responses ≡ s.responses)
    × (s'.outcomes ≡ s.outcomes)

pub Alike-IsSafe :
    (s s' : System)
    → Alike s s'
    → All (ThreadOk s.receiver.pending.store s.responses) s'.threads
    → IsSafe s
    → IsSafe s'
Alike-IsSafe s s' (e0, e1, e2) held h = record {
  kept = rw (e0, e1) h.kept;
  held = rw (e0, e1) held;
  done = rw (e1, e2) h.done;
}

pub audio-IsSafe :
    (m : AudioChunk) (s : System) (now : ℕ)
    → IsSafe s
    → IsSafe (audio_thread m s (take_audio now m s.receiver))
unfolding take_audio
audio-IsSafe m s now h =
    Alike-IsSafe s (audio_thread m s (take_audio now m s.receiver)) (ground arith)
      (ground (arith, h.held)) h

pub opening-IsSafe : (now : ℕ) (id : String) (s : System) → IsSafe s → IsSafe (opening now id s)
unfolding opening open_session
opening-IsSafe now id s h =
    Alike-IsSafe s (opening now id s) (ground arith) (ground (arith, h.held)) h

pub closing-IsSafe :
    (now : ℕ) (id raw : String) (s : System) → IsSafe s → IsSafe (step (close_event now id raw) s)
unfolding step close_session
closing-IsSafe now id raw s h =
    let t = s.receiver.pending in
    let reason = told (strip raw) in
    elim (Bool-cases (is_empty (strip raw))) [
      | inl blank ↦ rw blank (record { kept = h.kept; held = h.held; done = h.done })
      | inr full ↦ elim (Bool-cases (is_value id s.receiver.session_id)) [
        | inl same ↦
            rw (full, same)
              (record {
                kept = fail_all-IsKept (IsGood s.responses) t h.kept reason;
                held =
                    held-Stays t.store (fail_all reason t).store s.responses s.threads
                      (fail_entries-Stays reason t.entries t.store) h.held;
                done = h.done;
              })
        | inr other ↦ rw (full, other) (record { kept = h.kept; held = h.held; done = h.done })
      ]
    ]

pub received-IsGood :
    (m : ScreenshotResponse) (n : ℕ) (t : Table String ScreenshotResponse Note)
    (rs : List ScreenshotResponse) (p : Pending String ScreenshotResponse Note)
    → IsOf t.store m.request_id n
    → lookup n t.store ≡ some p
    → IsGiven (IsGood (m ∷ rs)) (with_response m p)
received-IsGood m n t rs p own there m' given jpeg has =
    let e : m ≡ m' = ground (arith, given) in
    inl (ground (arith, own, there), ap (λ x. x.jpeg) e ∙ has)

-- The object that the table has for the request gets the response.
pub answer-IsSafe :
    (now : ℕ) (m : ScreenshotResponse) (s : System) (o : Option ℕ)
    → lookup m.request_id s.receiver.pending.entries ≡ o
    → IsSafe s
    → IsSafe (note_response m s (answer_pending now m s.receiver o))
answer-IsSafe now m s none e h = record { kept = h.kept; held = h.held; done = h.done }
answer-IsSafe now m s (some n) e h =
    let t = s.receiver.pending in
    let rs = m ∷ s.responses in
    let own = h.kept.refer m.request_id n e in
    let good =
      IsKept-mono (IsGood s.responses) (IsGood rs) t (λ id x old jpeg has. inr (old jpeg has))
        h.kept in
    record {
      kept =
          change-IsKept (IsGood rs) t good n (with_response m) (λ p. refl)
            (λ p there. received-IsGood m n t s.responses p own there);
      held = held-Grows m (change n (with_response m) t).store s.responses s.threads (
          held-Stays t.store (change n (with_response m) t).store s.responses s.threads
            (update-Stays n (with_response m) t.store (λ p. refl)) h.held);
      done = All-IsAnswered m s.responses s.outcomes h.done;
    }

pub response-IsSafe :
    (now : ℕ) (m : ScreenshotResponse) (s : System)
    → IsSafe s
    → IsSafe (note_response m s (take_response now m s.receiver))
unfolding take_response
response-IsSafe now m s h = elim (Bool-cases (is_value m.session_id s.receiver.session_id)) [
  | inl same ↦
      rw same (answer-IsSafe now m s (lookup m.request_id s.receiver.pending.entries) refl h)
  | inr other ↦ rw other (record { kept = h.kept; held = h.held; done = h.done })
]

pub receiving-IsSafe : (now : ℕ) (m : Message) (s : System) → IsSafe s → IsSafe (receiving now m s)
unfolding receiving take_heartbeat
receiving-IsSafe now (audio_chunk m) s h = audio-IsSafe m s now h
receiving-IsSafe now (screenshot_response m) s h = response-IsSafe now m s h
receiving-IsSafe now (heartbeat m) s h =
    Alike-IsSafe s (receiving now (heartbeat m) s) (ground arith) h.held h
receiving-IsSafe now (hello m) s h = record { kept = h.kept; held = h.held; done = h.done }
receiving-IsSafe now (session_open m) s h = record { kept = h.kept; held = h.held; done = h.done }
receiving-IsSafe now (authorize m) s h = record { kept = h.kept; held = h.held; done = h.done }
receiving-IsSafe now (output_neutralize m) s h = record {
  kept = h.kept;
  held = h.held;
  done = h.done;
}
receiving-IsSafe now (output_data m) s h = record { kept = h.kept; held = h.held; done = h.done }
receiving-IsSafe now (ack m) s h = record { kept = h.kept; held = h.held; done = h.done }
receiving-IsSafe now (output_completed m) s h = record {
  kept = h.kept;
  held = h.held;
  done = h.done;
}
receiving-IsSafe now (screenshot_request m) s h = record {
  kept = h.kept;
  held = h.held;
  done = h.done;
}
