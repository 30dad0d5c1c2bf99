-- ===== src/MacOutput/Calling.antt =====
-- The calls of mac_output_transport.py start their threads safely.
use vrc_agent.Prelude.Int.{ℤ}
use vrc_agent.Prelude.{
  ◌∷◌, String, inl, inr, not, ◌||◌, Option, none, some, nat_eq, string_eq, ◌==◌, is_empty,
  Bool-cases, Result, ok, err,
}
use vrc_agent.MacOutput.{speech_eq, OutputError, require_session_id}
use vrc_agent.MacOutput.Advance.{entering, Thread, System}
use vrc_agent.MacOutput.Threads.{
  with_session, controlling, pose_thread, posing, speech_thread, speaking,
}
use vrc_agent.MacOutput.Holding.{Held, IsSafe}
use vrc_agent.Protocol.Messages.{Message}
use vrc_agent.Contracts.{ControlResource, resource_eq, SignedLease, voice_output, full_body_pose}
use vrc_agent.Json.{Value}

-- A thread that starts.
pub started-IsSafe :
    (t : Thread) (s : System) → Held s t → IsSafe s → IsSafe (record s { threads = t ∷ s.threads })
started-IsSafe t s own h = record {
  acks_kept = h.acks_kept;
  completions_kept = h.completions_kept;
  held = (own, h.held);
  ended = h.ended;
}

pub with_session-IsSafe :
    (f : String → System → System) (r : Result OutputError String) (s : System)
    → ((id : String) → IsSafe (f id s))
    → IsSafe s
    → IsSafe (with_session f r s)
with_session-IsSafe f (err e) s k h = h
with_session-IsSafe f (ok id) s k h = k id

pub controlling-IsSafe :
    (id : String) (message : String → Message) (s : System)
    → IsSafe s
    → IsSafe (controlling id message s)
controlling-IsSafe id message s h =
    with_session-IsSafe _ (require_session_id s.output) s
      (λ session. elim (Bool-cases (is_empty id)) [
        | inl blank ↦ rw blank h
        | inr full ↦ rw full (started-IsSafe (entering id (message session)) s tt h)
      ])
      h

pub posing-IsSafe :
    (lease : SignedLease) (payload : Value) (sequence ttl : ℤ) (action : Option String) (s : System)
    → IsSafe s
    → IsSafe (posing lease payload sequence ttl action s)
posing-IsSafe lease payload sequence ttl none s h = h
posing-IsSafe lease payload sequence ttl (some action) s h =
    elim (Bool-cases (is_empty action || not (lease.resource == full_body_pose))) [
      | inl bad ↦ rw bad h
      | inr good ↦ rw good (
          with_session-IsSafe (pose_thread lease action payload sequence ttl)
            (require_session_id s.output) s (λ id. started-IsSafe _ s tt h) h)
    ]

pub speaking-IsSafe :
    (action : String) (r : ControlResource) (token : ℤ) (payload : Value) (ttl : ℤ) (s : System)
    → IsSafe s
    → IsSafe (speaking action r token payload ttl s)
speaking-IsSafe action r token payload ttl s h = elim (Bool-cases (r == voice_output)) [
  | inl voice ↦ rw voice (
      with_session-IsSafe (speech_thread action r token payload ttl) (require_session_id s.output) s
        (λ session. started-IsSafe _ s tt h) h)
  | inr other ↦ rw other h
]
