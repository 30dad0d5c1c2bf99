-- ===== src/Resources/Tests.antt =====
-- Runs of control_resources.py at concrete calls.
use vrc_agent.Contracts.{at, voice_output, full_body_pose, ResourceLease}
use vrc_agent.Prelude.{
  refl, String, arith, ◌≢◌, ◌<◌, ◌↔◌, [], none, ◌∷◌, true, some, ◌≡◌, returned, List,
}
use vrc_agent.Resources.{init, is_current, invalidate, ResourceManager, acquire}
use vrc_agent.Resources.Fencing.{
  run_call, Call, acquire_call, invalidate_call, run_calls, IsDead, run_calls-IsDead,
  acquire-ok_iff, invalidate-acquire,
}

-- The voice of a first action, after it was preempted by a second.
abbrev preempted : ResourceManager
preempted = record {
  tokens = record { voice = 3; body = 0 };
  owners = record { voice = some "b"; body = none };
}

preempted_calls :
    run_calls
      (acquire_call voice_output "a"
        ∷ invalidate_call voice_output (some "a")
        ∷ acquire_call voice_output "b"
        ∷ [])
      init
    ≡ preempted
unfolding run_calls run_call acquire invalidate
preempted_calls = refl

abbrev first_lease : ResourceLease
first_lease = record { resource = voice_output; token = 1; action_id = some "a" }

abbrev calls : List Call
calls =
    invalidate_call voice_output (some "a")
    ∷ invalidate_call voice_output none
    ∷ acquire_call voice_output "a"
    ∷ []

run_calls-IsDead_example : IsDead first_lease (run_calls calls preempted)
unfolding is_current
run_calls-IsDead_example =
    run_calls-IsDead calls first_lease preempted (record { issued = omega arith; lost = refl })

acquire-ok_iff_example :
    (returned (acquire full_body_pose "c" preempted).0 ≡ true)
    ↔ ((◌≢◌ {A = String} "c" "") × (at preempted.owners full_body_pose ≡ none))
acquire-ok_iff_example = acquire-ok_iff full_body_pose "c" preempted

abbrev dancing : ResourceManager
dancing = record {
  tokens = record { voice = 3; body = 1 };
  owners = record { voice = some "b"; body = some "c" };
}

abbrev body_lease : ResourceLease
body_lease = record { resource = full_body_pose; token = 1; action_id = some "c" }

invalidate-acquire_example :
    (is_current body_lease dancing ≡ true)
    × (at preempted.tokens full_body_pose < body_lease.token)
    × IsDead body_lease (invalidate full_body_pose (some "c") dancing).1
    × (at (invalidate full_body_pose (some "c") dancing).1.owners full_body_pose ≡ none)
unfolding acquire
invalidate-acquire_example = invalidate-acquire full_body_pose "c" preempted refl
