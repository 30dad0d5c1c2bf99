-- ===== src/MacInput/Requests.antt =====
-- What a screenshot request of mac_input_transport.py returns.
use vrc_agent.Prelude.{
  ℕ, zero, suc, String, ◌≡◌, inl, inr, refl, Option, none, some, List, [], ◌∷◌, arith, nat_eq,
  string_eq, is_empty, Bool-cases, Option-cases, All,
}
use vrc_agent.MacInput.{take_request, leave_request, enter_request}
use vrc_agent.MacInput.Threads.{
  handling, handler_reporting, sending, waiting, reading, reporting, leaving, finished, Thread,
  System, started, advance, run_thread, request_thread, step, run, Event, open_event, close_event,
  request_event, receive_event, thread_event,
}
use vrc_agent.MacInput.Holding.{
  IsAnswered, IsGood, ThreadOk, IsSafe, held-Stays, outcome-IsAnswered,
}
use vrc_agent.Waiting.{enter}
use vrc_agent.Waiting.Kept.{
  IsKept, empty-IsKept, entered-Stays, entered-IsOf, enter-IsKept, leave-IsKept,
}
use vrc_agent.Input.{Sender, live}
use vrc_agent.Input.Threads.{Answer, gave, threw}
use vrc_agent.Prelude.Dict.{lookup}
use vrc_agent.MacInput.Receiving.{opening-IsSafe, closing-IsSafe, receiving-IsSafe}

enter-IsSafe :
    (id : String) (s : System) (o : Option (String × Sender))
    → IsSafe s
    → IsSafe (request_thread s.receiver.pending.made s (enter_request id s.receiver o))
enter-IsSafe id s none h = h
enter-IsSafe id s (some (session, sender)) h =
    let t = s.receiver.pending in
    let good = IsGood s.responses in
    elim (Option-cases (lookup id t.entries)) [
      | inl free ↦ rw free (record {
        kept = enter-IsKept good t h.kept id;
        held = (
          entered-IsOf good t h.kept id,
          held-Stays t.store (enter id t).store s.responses s.threads
              (entered-Stays good t h.kept id) h.held,
        );
        done = h.done;
      })
      | inr (k, taken) ↦ rw taken h
    ]

request-IsSafe : (id : String) (s : System) → IsSafe s → IsSafe (step (request_event id) s)
unfolding step take_request
request-IsSafe id s h = elim (Bool-cases (is_empty id)) [
  | inl blank ↦ rw blank h
  | inr full ↦ rw full (enter-IsSafe id s (live s.receiver.session_id s.receiver.sender) h)
]

-- Of the shared objects, a thread's step leaves all; of the table, at most an entry goes.
advance-IsSafe :
    (now : ℕ) (a : Answer) (t : Thread) (s : System)
    → IsKept (IsGood s.responses) s.receiver.pending
    → ThreadOk s.receiver.pending.store s.responses t
    → All (IsAnswered s.responses) s.outcomes
    → (let (t', s') = advance now a t s in
        IsKept (IsGood s.responses) s'.receiver.pending
        × (s'.receiver.pending.store ≡ s.receiver.pending.store)
        × (s'.responses ≡ s.responses)
        × ThreadOk s.receiver.pending.store s.responses t'
        × All (IsAnswered s.responses) s'.outcomes)
unfolding advance leave_request
advance-IsSafe now (gave _) (handling m) s kept own done = (kept, refl, refl, tt, done)
advance-IsSafe now (threw exc) (handling m) s kept own done = (kept, refl, refl, tt, done)
advance-IsSafe now a (handler_reporting exc) s kept own done = (kept, refl, refl, tt, done)
advance-IsSafe now (gave _) (sending x q n) s kept own done = (kept, refl, refl, own, done)
advance-IsSafe now (threw exc) (sending x q n) s kept own done = (kept, refl, refl, tt, done)
advance-IsSafe now a (waiting id n) s kept own done = (kept, refl, refl, ground (arith, own), done)
advance-IsSafe now a (reading id n) s kept own done =
    (kept, refl, refl, outcome-IsAnswered s.receiver.pending s.responses id n kept own, done)
advance-IsSafe now a (reporting id n note) s kept own done = (kept, refl, refl, tt, done)
advance-IsSafe now a (leaving id n o) s kept own done =
    (leave-IsKept (IsGood s.responses) s.receiver.pending kept id n, refl, refl, tt, (own, done))
advance-IsSafe now a finished s kept own done = (kept, refl, refl, tt, done)

run_thread-IsSafe :
    (now : ℕ) (a : Answer) (n : ℕ) (ts : List Thread) (s : System)
    → IsKept (IsGood s.responses) s.receiver.pending
    → All (ThreadOk s.receiver.pending.store s.responses) ts
    → All (IsAnswered s.responses) s.outcomes
    → (let (ts', s') = run_thread now a n ts s in
        IsKept (IsGood s.responses) s'.receiver.pending
        × (s'.receiver.pending.store ≡ s.receiver.pending.store)
        × (s'.responses ≡ s.responses)
        × All (ThreadOk s.receiver.pending.store s.responses) ts'
        × All (IsAnswered s.responses) s'.outcomes)
unfolding run_thread
run_thread-IsSafe now a n [] s kept held done = (kept, refl, refl, tt, done)
run_thread-IsSafe now a zero (t ∷ ts) s kept held done =
    let (kept', e0, e1, own, done') = advance-IsSafe now a t s kept held.0 done in
    (kept', e0, e1, (own, held.1), done')
run_thread-IsSafe now a (suc n) (t ∷ ts) s kept held done =
    let (kept', e0, e1, held', done') = run_thread-IsSafe now a n ts s kept held.1 done in
    (kept', e0, e1, (held.0, held'), done')

thread-IsSafe :
    (n now : ℕ) (a : Answer) (s : System) → IsSafe s → IsSafe (step (thread_event n now a) s)
unfolding step
thread-IsSafe n now a s h =
    let (kept, e0, e1, held, done) = run_thread-IsSafe now a n s.threads s h.kept h.held h.done in
    record { kept = rw e1 kept; held = rw (e0, e1) held; done = rw e1 done }

step-IsSafe : (e : Event) (s : System) → IsSafe s → IsSafe (step e s)
unfolding step
step-IsSafe (open_event now id) s h = opening-IsSafe now id s h
step-IsSafe (close_event now id reason) s h = closing-IsSafe now id reason s h
step-IsSafe (request_event id) s h = request-IsSafe id s h
step-IsSafe (receive_event now m) s h = receiving-IsSafe now m s h
step-IsSafe (thread_event n now a) s h = thread-IsSafe n now a s h

run-IsSafe : (es : List Event) (s : System) → IsSafe s → IsSafe (run es s)
unfolding run
run-IsSafe [] s h = h
run-IsSafe (e ∷ es) s h = run-IsSafe es (step e s) (step-IsSafe e s h)

-- However the calls and their threads interleave, also across sessions, a screenshot request that
-- returns a picture returns that of a response that was accepted and carries its request id.
pub run-IsAnswered :
    (start : ℕ) (es : List Event)
    → (let s = run es (started start) in All (IsAnswered s.responses) s.outcomes)
run-IsAnswered start es =
    (run-IsSafe es (started start)
      (record { kept = empty-IsKept (IsGood []); held = tt; done = tt })).done
