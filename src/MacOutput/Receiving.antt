-- ===== src/MacOutput/Receiving.antt =====
-- What mac_output_transport.py receives keeps the tables of its calls safe.
use vrc_agent.Waiting.Laws.{IsOf-made_for}
use vrc_agent.Prelude.{
  ℕ, String, ◌≡◌, ◌≢◌, inl, inr, refl, sym, ap, ◌∙◌, subst, Option, none, some, List, ◌∷◌, arith,
  nat_eq, string_eq, is_value, is_empty, Bool-cases, strip, All,
}
use vrc_agent.MacOutput.{
  Note, told, Speech, speech_eq, speech_of, Output, with_response, open_session, close_session,
  take_ack, take_completion, answer_ack, answer_completion,
}
use vrc_agent.MacOutput.Advance.{System}
use vrc_agent.MacOutput.Threads.{note_ack, note_completion, opening, receiving, step, close_event}
use vrc_agent.MacOutput.Holding.{
  GoodAck, GoodCompletion, Held, IsSafe, Grows, threads-Grows, outcomes-Grows,
}
use vrc_agent.Waiting.{Pending, Table, fail_all}
use vrc_agent.Waiting.Laws.{IsOf, Stays, IsGiven, update-Stays, fail_entries-Stays}
use vrc_agent.Waiting.Kept.{fail_all-IsKept, change-IsKept, IsKept-mono}
use vrc_agent.Protocol.Messages.{
  Message, audio_chunk, screenshot_response, heartbeat, Ack, OutputCompleted, hello, session_open,
  authorize, output_neutralize, output_data, ack, output_completed, screenshot_request,
}
use vrc_agent.Contracts.{resource_eq}
use vrc_agent.Prelude.Dict.{lookup}

-- A step that leaves the tables and the logs.
abbrev pub Alike : System → System → Type 0
Alike s s' =
    (s'.output.acks ≡ s.output.acks)
    × (s'.output.completions ≡ s.output.completions)
    × (s'.acks ≡ s.acks)
    × (s'.completions ≡ s.completions)
    × (s'.outcomes ≡ s.outcomes)

pub Alike-IsSafe : (s s' : System) → Alike s s' → All (Held s) s'.threads → IsSafe s → IsSafe s'
Alike-IsSafe s s' (e0, e1, e2, e3, e4) held h = record {
  acks_kept = rw (e0, e2) h.acks_kept;
  completions_kept = rw (e1, e3) h.completions_kept;
  held = rw (e0, e1, e2, e3) held;
  ended = rw (e2, e3, e4) h.ended;
}

pub opening-IsSafe : (now : ℕ) (id : String) (s : System) → IsSafe s → IsSafe (opening now id s)
unfolding opening open_session
opening-IsSafe now id s h =
    Alike-IsSafe s (opening now id s) (ground arith) (ground (arith, h.held)) h

-- Every call that waits is told of the end of the session.
pub failing-IsSafe :
    (note : Note) (s : System) (o : Output)
    → o.acks ≡ fail_all note s.output.acks
    → o.completions ≡ fail_all note s.output.completions
    → IsSafe s
    → IsSafe (record s { output = o })
failing-IsSafe note s o e0 e1 h =
    let a = s.output.acks in
    let c = s.output.completions in
    let g : Grows s (record s { output = o }) = (
      λ id x. x,
      λ k x. x,
      subst (λ t. Stays a.store t.store) (sym e0) (fail_entries-Stays note a.entries a.store),
      subst (λ t. Stays c.store t.store) (sym e1) (fail_entries-Stays note c.entries c.store),
    ) in
    record {
      acks_kept = rw e0 (fail_all-IsKept (GoodAck s.acks) a h.acks_kept note);
      completions_kept =
          rw e1 (fail_all-IsKept (GoodCompletion s.completions) c h.completions_kept note);
      held = threads-Grows s (record s { output = o }) s.threads g h.held;
      ended = h.ended;
    }

pub closing-IsSafe :
    (now : ℕ) (id raw : String) (s : System) → IsSafe s → IsSafe (step (close_event now id raw) s)
unfolding step close_session
closing-IsSafe now id raw s h = elim (Bool-cases (is_empty (strip raw))) [
  | inl blank ↦ rw blank h
  | inr full ↦ elim (Bool-cases (is_value id s.output.session_id)) [
    | inl same ↦ rw (full, same) (failing-IsSafe (told (strip raw)) s _ refl refl h)
    | inr other ↦ rw (full, other) h
  ]
]

pub received-GoodAck :
    (m : Ack) (n : ℕ) (t : Table String Ack Note) (older : List Ack) (p : Pending String Ack Note)
    → IsOf t.store m.message_id n
    → lookup n t.store ≡ some p
    → IsGiven (GoodAck (m ∷ older)) (with_response m p)
received-GoodAck m n t older p own there m' given good =
    let e : m ≡ m' = ground (arith, given) in
    inl (ground (arith, own, there), ap (λ x. x.accepted) e ∙ good)

pub ack-IsSafe :
    (now : ℕ) (m : Ack) (s : System) (o : Option ℕ)
    → lookup m.message_id s.output.acks.entries ≡ o
    → IsSafe s
    → IsSafe (note_ack m s (answer_ack now m s.output o))
ack-IsSafe now m s none e h =
    Alike-IsSafe s (note_ack m s (answer_ack now m s.output none)) (ground arith) h.held h
ack-IsSafe now m s (some n) e h =
    let t = s.output.acks in
    let acks = m ∷ s.acks in
    let s' = note_ack m s (answer_ack now m s.output (some n)) in
    let own = h.acks_kept.refer m.message_id n e in
    let good =
      IsKept-mono (GoodAck s.acks) (GoodAck acks) t (λ id x old yes. inr (old yes)) h.acks_kept in
    let g : Grows s s' =
      (λ id x. inr x, λ k x. x, update-Stays n (with_response m) t.store (λ p. refl), λ j k x. x) in
    record {
      acks_kept =
          change-IsKept (GoodAck acks) t good n (with_response m) (λ p. refl)
            (λ p there. received-GoodAck m n t s.acks p own there);
      completions_kept = h.completions_kept;
      held = threads-Grows s s' s.threads g h.held;
      ended = outcomes-Grows s s' s.outcomes g h.ended;
    }

pub received-GoodCompletion :
    (m : OutputCompleted) (n : ℕ) (t : Table Speech OutputCompleted Note)
    (older : List OutputCompleted) (p : Pending Speech OutputCompleted Note)
    → IsOf t.store (speech_of m) n
    → lookup n t.store ≡ some p
    → IsGiven (GoodCompletion (m ∷ older)) (with_response m p)
received-GoodCompletion m n t older p own there m' given fine =
    let e : m ≡ m' = ground (arith, given) in
    let name : speech_of m ≡ p.made_for = sym (IsOf-made_for t.store (speech_of m) n p own there) in
    inl (name, subst (λ x. x.state ≢ "failed") (sym e) fine)

pub completion-IsSafe :
    (now : ℕ) (m : OutputCompleted) (s : System) (o : Option ℕ)
    → lookup (speech_of m) s.output.completions.entries ≡ o
    → IsSafe s
    → IsSafe (note_completion m s (answer_completion now m s.output o))
completion-IsSafe now m s none e h =
    Alike-IsSafe s (note_completion m s (answer_completion now m s.output none)) (ground arith)
      h.held h
completion-IsSafe now m s (some n) e h =
    let t = s.output.completions in
    let completions = m ∷ s.completions in
    let s' = note_completion m s (answer_completion now m s.output (some n)) in
    let own = h.completions_kept.refer (speech_of m) n e in
    let good =
      IsKept-mono (GoodCompletion s.completions) (GoodCompletion completions) t
        (λ k x old yes. inr (old yes)) h.completions_kept in
    let g : Grows s s' = (
      λ id x. x,
      λ k x. inr x,
      λ j id x. x,
      update-Stays n (with_response m) t.store (λ p. refl),
    ) in
    record {
      acks_kept = h.acks_kept;
      completions_kept =
          change-IsKept (GoodCompletion completions) t good n (with_response m) (λ p. refl)
            (λ p there. received-GoodCompletion m n t s.completions p own there);
      held = threads-Grows s s' s.threads g h.held;
      ended = outcomes-Grows s s' s.outcomes g h.ended;
    }

pub receiving-IsSafe : (now : ℕ) (m : Message) (s : System) → IsSafe s → IsSafe (receiving now m s)
unfolding receiving take_ack take_completion
receiving-IsSafe now (ack m) s h =
    ack-IsSafe now m s (lookup m.message_id s.output.acks.entries) refl h
receiving-IsSafe now (output_completed m) s h =
    completion-IsSafe now m s (lookup (speech_of m) s.output.completions.entries) refl h
receiving-IsSafe now (hello m) s h =
    Alike-IsSafe s (receiving now (hello m) s) (ground arith) h.held h
receiving-IsSafe now (session_open m) s h =
    Alike-IsSafe s (receiving now (session_open m) s) (ground arith) h.held h
receiving-IsSafe now (authorize m) s h =
    Alike-IsSafe s (receiving now (authorize m) s) (ground arith) h.held h
receiving-IsSafe now (output_neutralize m) s h =
    Alike-IsSafe s (receiving now (output_neutralize m) s) (ground arith) h.held h
receiving-IsSafe now (output_data m) s h =
    Alike-IsSafe s (receiving now (output_data m) s) (ground arith) h.held h
receiving-IsSafe now (audio_chunk m) s h =
    Alike-IsSafe s (receiving now (audio_chunk m) s) (ground arith) h.held h
receiving-IsSafe now (screenshot_request m) s h =
    Alike-IsSafe s (receiving now (screenshot_request m) s) (ground arith) h.held h
receiving-IsSafe now (screenshot_response m) s h =
    Alike-IsSafe s (receiving now (screenshot_response m) s) (ground arith) h.held h
receiving-IsSafe now (heartbeat m) s h =
    Alike-IsSafe s (receiving now (heartbeat m) s) (ground arith) h.held h
