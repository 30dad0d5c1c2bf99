-- ===== src/MacOutput/Ending.antt =====
-- Every call of mac_output_transport.py comes to its end.
use vrc_agent.Prelude.{
  ℕ, ◌-◌, ◌≤◌, String, ◌≡◌, inl, inr, true, Option, none, some, List, [], ◌∷◌, arith, nat_eq,
  string_eq, Bool-cases, length, All,
}
use vrc_agent.MacOutput.Advance.{
  Job, control, speech, pose, Thread, entering, entering_speech, judging, enter_speech,
  error_thread, read_error, acquiring, sending, counting, waiting, reading, reporting, leaving,
  finished, Answer, System, advance, acquired, sent, waited_on, read_job, job_is_set, read_ack,
}
use vrc_agent.MacOutput.{Note, Output, Speech}
use vrc_agent.Json.{Value}
use vrc_agent.Prelude.Int.{ℤ}
use vrc_agent.Input.{Sender}
use vrc_agent.Waiting.{Pending}
use vrc_agent.Protocol.Messages.{Message, Ack}
use vrc_agent.Prelude.Dict.{lookup}

-- The steps that a thread takes, each in the system as the other threads have left it.
unfoldable pub walk : List (ℕ × Answer × System) → Thread → Thread
walk [] t = t
walk ((now, a, s) ∷ rest) t = walk rest (advance now a t s).0

-- How many steps are left at most.
abbrev rank : Thread → ℕ
rank finished = 0
rank (leaving j o) = 1
rank (reporting j note) = 2
rank (judging j) = 3
rank (reading j) = 4
rank (waiting j) = 5
rank (counting j) = 6
rank (sending x m j) = 7
rank (acquiring m j) = 8
rank (entering id m) = 9
rank (entering_speech v ttl k) = 9

-- The time of a wait is up.
abbrev pub IsLate : ℕ × Answer × System → Type 0
IsLate (now, a, s) = a.time_is_up ≡ true

rank-read_ack :
    (id : String) (n : ℕ) (o : Option (Pending String Ack Note)) → rank (read_ack id n o) ≤ 2
rank-read_ack id n o = ground arith

rank-waited_on : (j : Job) (a : Answer) → a.time_is_up ≡ true → rank (waited_on j a) ≤ 2
rank-waited_on (control id n) a late = ground (arith, late)
rank-waited_on (speech k n) a late = ground (arith, late)
rank-waited_on pose a late = omega arith

rank-read_job : (j : Job) (a : Answer) (o : Output) → rank (read_job j a o) ≤ 2
rank-read_job (control id n) a o = rank-read_ack id n (lookup n o.acks.store)
rank-read_job (speech k n) a o = omega arith
rank-read_job pose a o = omega arith

rank-error_thread : (j : Job) (o : Option Note) → rank (error_thread j o) ≤ 3
rank-error_thread j none = omega arith
rank-error_thread j (some note) = omega arith

rank-read_error : (j : Job) (o : Output) → rank (read_error j o) ≤ 3
rank-read_error (control id n) o = rank-error_thread (control id n) _
rank-read_error (speech k n) o = rank-error_thread (speech k n) _
rank-read_error pose o = omega arith

rank-enter_speech :
    (v : Value) (ttl : ℤ) (k : Speech) (s : System) (o : Option ℕ)
    → rank (enter_speech v ttl k s o).0 ≤ 8
rank-enter_speech v ttl k s none = omega arith
rank-enter_speech v ttl k s (some n) = omega arith

rank-acquired : (m : Message) (j : Job) (o : Option (String × Sender)) → rank (acquired m j o) ≤ 7
rank-acquired m j none = omega arith
rank-acquired m j (some x) = omega arith

rank-sent : (j : Job) (o : Option String) → rank (sent j o) ≤ 6
rank-sent j none = omega arith
rank-sent j (some exc) = omega arith

rank-advance :
    (now : ℕ) (a : Answer) (t : Thread) (s : System)
    → a.time_is_up ≡ true
    → rank (advance now a t s).0 ≤ rank t - 1
unfolding advance
rank-advance now a (entering id m) s late = omega arith
rank-advance now a (entering_speech v ttl k) s late = rank-enter_speech v ttl k s _
rank-advance now a (acquiring m j) s late = rank-acquired m j _
rank-advance now a (sending x m j) s late = rank-sent j a.raised
rank-advance now a (counting j) s late = omega arith
rank-advance now a (waiting j) s late = elim (Bool-cases (job_is_set j s.output)) [
  | inl set ↦ rw set (omega arith)
  | inr unset ↦ rw unset (omega (arith, rank-waited_on j a late))
]
rank-advance now a (reading j) s late = rank-read_error j s.output
rank-advance now a (judging j) s late = rank-read_job j a s.output
rank-advance now a (reporting j note) s late = omega arith
rank-advance now a (leaving j o) s late = omega arith
rank-advance now a finished s late = omega arith

rank-walk :
    (xs : List (ℕ × Answer × System)) (t : Thread)
    → All IsLate xs
    → rank (walk xs t) ≤ rank t - length xs
unfolding walk
rank-walk [] t late = omega arith
rank-walk ((now, a, s) ∷ xs) t late =
    omega (arith, rank-walk xs (advance now a t s).0 late.1, rank-advance now a t s late.0)

rank-finished : (t : Thread) → rank t ≡ 0 → t ≡ finished
rank-finished t h = ground (arith, h)

rank-bound : (t : Thread) → rank t ≤ 9
rank-bound t = ground arith

-- Once its time is up, a call of the transport ends within nine steps of its own, wherever it stands,
-- whatever its sender did and however the other threads have left the system at each step.
pub walk-finished :
    (xs : List (ℕ × Answer × System)) (t : Thread)
    → All IsLate xs
    → 9 ≤ length xs
    → walk xs t ≡ finished
walk-finished xs t late enough =
    rank-finished (walk xs t) (omega (arith, rank-walk xs t late, rank-bound t, enough))
