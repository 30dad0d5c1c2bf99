-- ===== src/MacOutput/Moving.antt =====
-- What one step of a thread of mac_output_transport.py keeps.
use vrc_agent.Prelude.{
  ℕ, String, ◌≡◌, refl, Option, none, some, ◌∷◌, arith, nat_eq, string_eq, if◌then◌else◌, All,
}
use vrc_agent.MacOutput.{Speech, speech_eq}
use vrc_agent.Json.{Value}
use vrc_agent.Prelude.Int.{ℤ}
use vrc_agent.MacOutput.Advance.{
  Job, control, speech, pose, Outcome, Answer, Thread, entering, entering_speech, judging,
  enter_control, enter_speech, acquiring, sending, counting, waiting, reading, reporting, leaving,
  finished, System, job_is_set, waited_on, read_job, leave_job, acquired, sent, advance,
}
use vrc_agent.MacOutput.Holding.{
  IsEnded, GoodAck, GoodCompletion, Held, Grows, read_error-Held, read_ack-Held,
  read_completion-IsEnded,
}
use vrc_agent.Waiting.Kept.{entered-Stays, entered-IsOf, enter-IsKept, IsKept, leave-IsKept}
use vrc_agent.Input.{Sender}
use vrc_agent.Protocol.Messages.{Message}
use vrc_agent.Contracts.{resource_eq}

-- A thread's step leaves the answers; the shared objects stay those of their keys.
abbrev pub Steps : System → Thread → System → Type 0
Steps s t' s' =
    IsKept (GoodAck s.acks) s'.output.acks
    × IsKept (GoodCompletion s.completions) s'.output.completions
    × Grows s s'
    × (s'.acks ≡ s.acks)
    × (s'.completions ≡ s.completions)
    × Held s' t'
    × All (IsEnded s.acks s.completions) s'.outcomes

abbrev pub same : (s : System) → Grows s s
same s = (λ id x. x, λ k x. x, λ n id x. x, λ n k x. x)

module _ (now : ℕ) (a : Answer) (s : System) (ka : IsKept (GoodAck s.acks) s.output.acks)
    (kc : IsKept (GoodCompletion s.completions) s.output.completions)
    (ended : All (IsEnded s.acks s.completions) s.outcomes) where
  acquired-Held :
      (m : Message) (j : Job) (o : Option (String × Sender))
      → Held s (waiting j)
      → Held s (acquired m j o)
  acquired-Held m j none own = tt
  acquired-Held m j (some x) own = own

  sent-Held : (j : Job) (o : Option String) → Held s (waiting j) → Held s (sent j o)
  sent-Held j none own = own
  sent-Held j (some exc) own = tt

  waited-Held :
      (j : Job)
      → Held s (waiting j)
      → Held s (if job_is_set j s.output then reading j else waited_on j a)
  waited-Held (control id n) own = ground (arith, own)
  waited-Held (speech k n) own = ground (arith, own)
  waited-Held pose own = tt

  read-Held : (j : Job) → Held s (waiting j) → Held s (read_job j a s.output)
  read-Held (control id n) own = read_ack-Held s id n ka own
  read-Held (speech k n) own = read_completion-IsEnded s k n a.is_cancelled kc own
  read-Held pose own = tt

  enter_control-Steps :
      (id : String) (m : Message) → Steps s (enter_control id m s).0 (enter_control id m s).1
  enter_control-Steps id m =
      let t = s.output.acks in
      let good = GoodAck s.acks in
      (
        enter-IsKept good t ka id,
        kc,
        (λ i x. x, λ k x. x, entered-Stays good t ka id, λ n k x. x),
        refl,
        refl,
        entered-IsOf good t ka id,
        ended,
      )

  enter_speech-Steps :
      (payload : Value) (ttl : ℤ) (k : Speech) (o : Option ℕ)
      → Steps s (enter_speech payload ttl k s o).0 (enter_speech payload ttl k s o).1
  enter_speech-Steps payload ttl k (some n) = (ka, kc, same s, refl, refl, tt, ended)
  enter_speech-Steps payload ttl k none =
      let t = s.output.completions in
      let good = GoodCompletion s.completions in
      (
        ka,
        enter-IsKept good t kc k,
        (λ i x. x, λ j x. x, λ n i x. x, entered-Stays good t kc k),
        refl,
        refl,
        entered-IsOf good t kc k,
        ended,
      )

  leave-Steps :
      (j : Job) (o : Outcome)
      → IsEnded s.acks s.completions (j, o)
      → Steps s finished
          (record s { output = leave_job now j s.output; outcomes = (j, o) ∷ s.outcomes })
  leave-Steps (control id n) o own = (
    leave-IsKept (GoodAck s.acks) s.output.acks ka id n,
    kc,
    same s,
    refl,
    refl,
    tt,
    (own, ended),
  )
  leave-Steps (speech k n) o own = (
    ka,
    leave-IsKept (GoodCompletion s.completions) s.output.completions kc k n,
    same s,
    refl,
    refl,
    tt,
    (own, ended),
  )
  leave-Steps pose o own = (ka, kc, same s, refl, refl, tt, (own, ended))

  pub advance-Steps : (t : Thread) → Held s t → Steps s (advance now a t s).0 (advance now a t s).1
  unfolding advance
  advance-Steps (entering id m) own = enter_control-Steps id m
  advance-Steps (entering_speech v ttl k) own = enter_speech-Steps v ttl k _
  advance-Steps (acquiring m j) own = (ka, kc, same s, refl, refl, acquired-Held m j _ own, ended)
  advance-Steps (sending x m j) own = (ka, kc, same s, refl, refl, sent-Held j a.raised own, ended)
  advance-Steps (counting j) own = (ka, kc, same s, refl, refl, own, ended)
  advance-Steps (waiting j) own = (ka, kc, same s, refl, refl, waited-Held j own, ended)
  advance-Steps (reading j) own = (ka, kc, same s, refl, refl, read_error-Held s j own, ended)
  advance-Steps (judging j) own = (ka, kc, same s, refl, refl, read-Held j own, ended)
  advance-Steps (reporting j note) own = (ka, kc, same s, refl, refl, tt, ended)
  advance-Steps (leaving j o) own = leave-Steps j o own
  advance-Steps finished own = (ka, kc, same s, refl, refl, tt, ended)
