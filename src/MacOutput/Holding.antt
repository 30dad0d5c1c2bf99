-- ===== src/MacOutput/Holding.antt =====
-- What the threads of mac_output_transport.py refer to, and how their calls may end.
use vrc_agent.Prelude.{
  ℕ, String, ◌≡◌, ◌≢◌, ◌⊎◌, inl, inr, refl, Bool, true, not, ◌&&◌, Option, none, some, List, [],
  ◌∷◌, arith, nat_eq, string_eq, ◌==◌, eq_iff, Bool-cases, Option-cases, All,
}
use vrc_agent.MacOutput.{Note, Speech, speech_eq, speech_of}
use vrc_agent.MacOutput.Advance.{
  Job, control, speech, pose, Outcome, done, stopped, failed, not_connected, not_recorded, Thread,
  entering, entering_speech, acquiring, sending, counting, waiting, reading, judging, reporting,
  leaving, finished, System, ack_thread, error_thread, read_error, read_ack, completion_outcome,
  read_completion,
}
use vrc_agent.Waiting.{Store}
use vrc_agent.Waiting.Laws.{IsOf, Stays}
use vrc_agent.Waiting.Kept.{IsKept, kept-given}
use vrc_agent.Protocol.Messages.{Ack, OutputCompleted}
use vrc_agent.Prelude.Dict.{lookup}
use vrc_agent.Prelude.Lists.{All-mono}

-- One of the acknowledgements accepts the message.
abbrev pub IsAcked : List Ack → String → Type 0
IsAcked [] id = ⊥
IsAcked (m ∷ older) id = ((m.message_id ≡ id) × (m.accepted ≡ true)) ⊎ IsAcked older id

-- One of the completions is of the speech, and is no failure.
abbrev pub IsCompleted : List OutputCompleted → Speech → Type 0
IsCompleted [] k = ⊥
IsCompleted (m ∷ older) k = ((speech_of m ≡ k) × (m.state ≢ "failed")) ⊎ IsCompleted older k

-- The message of a control call was accepted, and speech was completed.
abbrev pub IsFinished : List Ack → List OutputCompleted → Job → Type 0
IsFinished acks completions (control id n) = IsAcked acks id
IsFinished acks completions (speech k n) = IsCompleted completions k
IsFinished acks completions pose = Unit

abbrev IsOutcome : List Ack → List OutputCompleted → Job → Outcome → Type 0
IsOutcome acks completions j done = IsFinished acks completions j
IsOutcome acks completions j stopped = Unit
IsOutcome acks completions j (failed note) = Unit
IsOutcome acks completions j not_connected = Unit
IsOutcome acks completions j not_recorded = Unit

-- A call that returned without an error, and was not stopped, is finished.
abbrev pub IsEnded : List Ack → List OutputCompleted → Job × Outcome → Type 0
IsEnded acks completions (j, outcome) = IsOutcome acks completions j outcome

-- The answers that may be given.
abbrev pub GoodAck : List Ack → String → Ack → Type 0
GoodAck acks id m = m.accepted ≡ true → IsAcked acks id

abbrev pub GoodCompletion : List OutputCompleted → Speech → OutputCompleted → Type 0
GoodCompletion completions k m = m.state ≢ "failed" → IsCompleted completions k

abbrev pub JobOk : Store String Ack Note → Store Speech OutputCompleted Note → Job → Type 0
JobOk a c (control id n) = IsOf a id n
JobOk a c (speech k n) = IsOf c k n
JobOk a c pose = Unit

abbrev pub ThreadOk :
    Store String Ack Note
    → Store Speech OutputCompleted Note
    → List Ack
    → List OutputCompleted
    → Thread
    → Type 0
ThreadOk a c acks completions (entering id m) = Unit
ThreadOk a c acks completions (entering_speech v ttl k) = Unit
ThreadOk a c acks completions (acquiring m j) = JobOk a c j
ThreadOk a c acks completions (sending x m j) = JobOk a c j
ThreadOk a c acks completions (counting j) = JobOk a c j
ThreadOk a c acks completions (waiting j) = JobOk a c j
ThreadOk a c acks completions (reading j) = JobOk a c j
ThreadOk a c acks completions (judging j) = JobOk a c j
ThreadOk a c acks completions (reporting j note) = Unit
ThreadOk a c acks completions (leaving j outcome) = IsEnded acks completions (j, outcome)
ThreadOk a c acks completions finished = Unit

abbrev pub Held : System → Thread → Type 0
Held s = ThreadOk s.output.acks.store s.output.completions.store s.acks s.completions

pub record IsSafe (s : System) : Type 0 where
  pub acks_kept : IsKept (GoodAck s.acks) s.output.acks
  pub completions_kept : IsKept (GoodCompletion s.completions) s.output.completions
  pub held : All (Held s) s.threads
  pub ended : All (IsEnded s.acks s.completions) s.outcomes

-- More answers, and objects that stay those of their keys.
abbrev pub Grows : System → System → Type 0
Grows s s' =
    ((id : String) → IsAcked s.acks id → IsAcked s'.acks id)
    × ((k : Speech) → IsCompleted s.completions k → IsCompleted s'.completions k)
    × Stays s.output.acks.store s'.output.acks.store
    × Stays s.output.completions.store s'.output.completions.store

IsEnded-Grows :
    (s s' : System) (x : Job × Outcome)
    → Grows s s'
    → IsEnded s.acks s.completions x
    → IsEnded s'.acks s'.completions x
IsEnded-Grows s s' (control id n, done) g h = g.0 id h
IsEnded-Grows s s' (speech k n, done) g h = g.1 k h
IsEnded-Grows s s' (pose, done) g h = tt
IsEnded-Grows s s' (j, stopped) g h = tt
IsEnded-Grows s s' (j, failed note) g h = tt
IsEnded-Grows s s' (j, not_connected) g h = tt
IsEnded-Grows s s' (j, not_recorded) g h = tt

JobOk-Grows :
    (s s' : System) (j : Job)
    → Grows s s'
    → JobOk s.output.acks.store s.output.completions.store j
    → JobOk s'.output.acks.store s'.output.completions.store j
JobOk-Grows s s' (control id n) g h = g.2 n id h
JobOk-Grows s s' (speech k n) g h = g.3 n k h
JobOk-Grows s s' pose g h = tt

pub Held-Grows : (s s' : System) (t : Thread) → Grows s s' → Held s t → Held s' t
Held-Grows s s' (entering id m) g h = tt
Held-Grows s s' (entering_speech v ttl k) g h = tt
Held-Grows s s' (acquiring m j) g h = JobOk-Grows s s' j g h
Held-Grows s s' (sending x m j) g h = JobOk-Grows s s' j g h
Held-Grows s s' (counting j) g h = JobOk-Grows s s' j g h
Held-Grows s s' (waiting j) g h = JobOk-Grows s s' j g h
Held-Grows s s' (reading j) g h = JobOk-Grows s s' j g h
Held-Grows s s' (judging j) g h = JobOk-Grows s s' j g h
Held-Grows s s' (reporting j note) g h = tt
Held-Grows s s' (leaving j o) g h = IsEnded-Grows s s' (j, o) g h
Held-Grows s s' finished g h = tt

pub threads-Grows :
    (s s' : System) (ts : List Thread) → Grows s s' → All (Held s) ts → All (Held s') ts
threads-Grows s s' ts g = All-mono (Held s) (Held s') ts (λ t. Held-Grows s s' t g)

pub outcomes-Grows :
    (s s' : System) (xs : List (Job × Outcome))
    → Grows s s'
    → All (IsEnded s.acks s.completions) xs
    → All (IsEnded s'.acks s'.completions) xs
outcomes-Grows s s' xs g =
    All-mono (IsEnded s.acks s.completions) (IsEnded s'.acks s'.completions) xs
      (λ x. IsEnded-Grows s s' x g)

error_thread-Held :
    (s : System) (j : Job) (error : Option Note)
    → Held s (waiting j)
    → Held s (error_thread j error)
error_thread-Held s (control id n) (some note) own = tt
error_thread-Held s (speech k n) (some note) own = tt
error_thread-Held s pose (some note) own = tt
error_thread-Held s j none own = own

pub read_error-Held : (s : System) (j : Job) → Held s (waiting j) → Held s (read_error j s.output)
read_error-Held s (control id n) own = error_thread-Held s (control id n) _ own
read_error-Held s (speech k n) own = error_thread-Held s (speech k n) _ own
read_error-Held s pose own = tt

-- What a control call makes of what its object was given.
received-Held :
    (s : System) (id : String) (n : ℕ) (response : Option Ack)
    → ((m : Ack) → response ≡ some m → GoodAck s.acks id m)
    → Held s (ack_thread id n response)
received-Held s id n none h = tt
received-Held s id n (some m) h = elim (Bool-cases m.accepted) [
  | inl good ↦ rw good (h m refl good)
  | inr bad ↦ rw bad tt
]

pub read_ack-Held :
    (s : System) (id : String) (n : ℕ)
    → IsKept (GoodAck s.acks) s.output.acks
    → IsOf s.output.acks.store id n
    → Held s (read_ack id n (lookup n s.output.acks.store))
read_ack-Held s id n kept own = elim (Option-cases (lookup n s.output.acks.store)) [
  | inl absent ↦ rw absent tt
  | inr (p, there) ↦ rw there (
      received-Held s id n p.response
        (λ m given. kept-given (GoodAck s.acks) s.output.acks kept id n p m own there given))
]

received-IsEnded :
    (s : System) (k : Speech) (n : ℕ) (cancelled : Bool) (response : Option OutputCompleted)
    → ((m : OutputCompleted) → response ≡ some m → GoodCompletion s.completions k m)
    → IsEnded s.acks s.completions (speech k n, completion_outcome cancelled response)
received-IsEnded s k n cancelled none h = tt
received-IsEnded s k n cancelled (some m) h = elim (Bool-cases (m.state == "failed")) [
  | inl bad ↦ rw bad tt
  | inr good ↦
      let fine : m.state ≢ "failed" = ground (arith, good, eq_iff m.state "failed") in
      elim (Bool-cases (m.state == "cancelled" && not cancelled)) [
        | inl bad ↦ rw (good, bad) tt
        | inr well ↦ rw (good, well) (h m refl fine)
      ]
]

pub read_completion-IsEnded :
    (s : System) (k : Speech) (n : ℕ) (cancelled : Bool)
    → IsKept (GoodCompletion s.completions) s.output.completions
    → IsOf s.output.completions.store k n
    → IsEnded s.acks s.completions
        (speech k n, read_completion cancelled (lookup n s.output.completions.store))
read_completion-IsEnded s k n cancelled kept own =
    elim (Option-cases (lookup n s.output.completions.store)) [
      | inl absent ↦ rw absent tt
      | inr (p, there) ↦ rw there (
          received-IsEnded s k n cancelled p.response (λ m given.
            kept-given (GoodCompletion s.completions) s.output.completions kept k n p m own there
              given))
    ]
