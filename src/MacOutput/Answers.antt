-- ===== src/MacOutput/Answers.antt =====
-- What the calls of mac_output_transport.py may rely on when they return.
use vrc_agent.Prelude.{ℕ, zero, suc, ◌≡◌, refl, List, [], ◌∷◌, nat_eq, string_eq, All}
use vrc_agent.MacOutput.{speech_eq}
use vrc_agent.MacOutput.Advance.{Answer, Thread, System, advance, started}
use vrc_agent.MacOutput.Threads.{
  run_thread, step, run, Event, open_event, close_event, authorize_event, neutralize_event,
  pose_event, speech_event, receive_event, thread_event,
}
use vrc_agent.MacOutput.Holding.{
  IsEnded, GoodAck, GoodCompletion, Held, Grows, Held-Grows, threads-Grows, IsSafe,
}
use vrc_agent.Waiting.Kept.{IsKept, empty-IsKept}
use vrc_agent.Contracts.{resource_eq}
use vrc_agent.MacOutput.Moving.{same, advance-Steps}
use vrc_agent.MacOutput.Receiving.{opening-IsSafe, closing-IsSafe, receiving-IsSafe}
use vrc_agent.MacOutput.Calling.{controlling-IsSafe, posing-IsSafe, speaking-IsSafe}

-- The same of a list of threads.
abbrev StepsAll : System → List Thread → System → Type 0
StepsAll s ts' s' =
    IsKept (GoodAck s.acks) s'.output.acks
    × IsKept (GoodCompletion s.completions) s'.output.completions
    × Grows s s'
    × (s'.acks ≡ s.acks)
    × (s'.completions ≡ s.completions)
    × All (Held s') ts'
    × All (IsEnded s.acks s.completions) s'.outcomes

run_thread-Steps :
    (now : ℕ) (a : Answer) (n : ℕ) (ts : List Thread) (s : System)
    → IsKept (GoodAck s.acks) s.output.acks
    → IsKept (GoodCompletion s.completions) s.output.completions
    → All (IsEnded s.acks s.completions) s.outcomes
    → All (Held s) ts
    → StepsAll s (run_thread now a n ts s).0 (run_thread now a n ts s).1
unfolding run_thread
run_thread-Steps now a n [] s ka kc ended held = (ka, kc, same s, refl, refl, tt, ended)
run_thread-Steps now a zero (t ∷ ts) s ka kc ended held =
    let (ka', kc', g, e0, e1, own, ended') = advance-Steps now a s ka kc ended t held.0 in
    (ka', kc', g, e0, e1, (own, threads-Grows s (advance now a t s).1 ts g held.1), ended')
run_thread-Steps now a (suc n) (t ∷ ts) s ka kc ended held =
    let (ka', kc', g, e0, e1, held', ended') = run_thread-Steps now a n ts s ka kc ended held.1 in
    (ka', kc', g, e0, e1, (Held-Grows s (run_thread now a n ts s).1 t g held.0, held'), ended')

thread-IsSafe :
    (n now : ℕ) (a : Answer) (s : System) → IsSafe s → IsSafe (step (thread_event n now a) s)
unfolding step
thread-IsSafe n now a s h =
    let (ka, kc, g, e0, e1, held, ended) =
      run_thread-Steps now a n s.threads s h.acks_kept h.completions_kept h.ended h.held in
    record {
      acks_kept = rw e0 ka;
      completions_kept = rw e1 kc;
      held = held;
      ended = rw (e0, e1) ended;
    }

step-IsSafe : (e : Event) (s : System) → IsSafe s → IsSafe (step e s)
unfolding step
step-IsSafe (open_event now id) s h = opening-IsSafe now id s h
step-IsSafe (close_event now id reason) s h = closing-IsSafe now id reason s h
step-IsSafe (authorize_event id lease) s h = controlling-IsSafe id _ s h
step-IsSafe (neutralize_event id r token) s h = controlling-IsSafe id _ s h
step-IsSafe (pose_event lease payload sequence ttl) s h =
    posing-IsSafe lease payload sequence ttl lease.action_id s h
step-IsSafe (speech_event action r token payload ttl) s h =
    speaking-IsSafe action r token payload ttl s h
step-IsSafe (receive_event now m) s h = receiving-IsSafe now m s h
step-IsSafe (thread_event n now a) s h = thread-IsSafe n now a s h

run-IsSafe : (es : List Event) (s : System) → IsSafe s → IsSafe (run es s)
unfolding run
run-IsSafe [] s h = h
run-IsSafe (e ∷ es) s h = run-IsSafe es (step e s) (step-IsSafe e s h)

-- However the calls and their threads interleave, also across sessions, a control call that returns
-- without an error has had an acknowledgement received that carries its message id and accepts it, and
-- speech that returns without an error and was not stopped has had a completion received of its
-- session, action, resource and lease that is no failure.
pub run-IsEnded :
    (start : ℕ) (es : List Event)
    → (let s = run es (started start) in All (IsEnded s.acks s.completions) s.outcomes)
run-IsEnded start es =
    (run-IsSafe es (started start) (record {
      acks_kept = empty-IsKept (GoodAck []);
      completions_kept = empty-IsKept (GoodCompletion []);
      held = tt;
      ended = tt;
    })).ended
