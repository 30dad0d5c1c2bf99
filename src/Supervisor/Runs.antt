-- ===== src/Supervisor/Runs.antt =====
-- Whole runs of character_supervisor.py: any sequence of requests, halts and calls of executors'
-- threads, whatever the output authority answers.
use vrc_agent.Contracts.{voice_output, full_body_pose}
use vrc_agent.Supervisor.Invariant.Halting.{Halted, Rejected}
use vrc_agent.Prelude.Ends.{Never, Ends-state}
use vrc_agent.Prelude.{strip, arith, ℕ, String, Option, List, [], ◌∷◌, refl}
use vrc_agent.Contracts.{ActionBundle, ControlResource}
use vrc_agent.Resources
use vrc_agent.Supervisor.{World, Supervisor, apply_bundle, halt_all, mark_running, finish_handle}
use vrc_agent.Supervisor.Invariant.{IsValid}
use vrc_agent.Supervisor.Invariant.Bundles.{apply_bundle-Ends, Refused}
use vrc_agent.Supervisor.Invariant.Halting.{halt_all-Ends}
use vrc_agent.Supervisor.Invariant.Finishing.{finish_handle-Ends, mark_running-IsValid}

-- The supervisor that the constructor makes.
abbrev pub init : Supervisor
init = record {
  resources = Resources.init;
  current = [];
  pending = [];
  recent = [];
  last_errors = [];
  heartbeat = 0;
  drawn = 0;
  next_ref = 0;
  effects = [];
}

-- A call that some thread makes, at a time.
pub data Call : Type 0 where
  apply_call : ℕ → ActionBundle → String → Call
  halt_call : ℕ → String → Call
  mark_call : ℕ → ControlResource → ℕ → Call
  finish_call : ℕ → ControlResource → ℕ → Option String → Call

unfoldable pub run_call : World → Call → Supervisor → Supervisor
run_call w (apply_call now bundle turn_id) s = (apply_bundle w now bundle turn_id s).1
run_call w (halt_call now reason) s = (halt_all w now reason s).1
run_call w (mark_call now r ref) s = mark_running w now r ref s
run_call w (finish_call now r ref error) s = (finish_handle w now r ref error s).1

unfoldable pub run : World → List Call → Supervisor → Supervisor
run w [] s = s
run w (c ∷ cs) s = run w cs (run_call w c s)

run_call-IsValid : (w : World) (c : Call) (s : Supervisor) → IsValid s → IsValid (run_call w c s)
unfolding run_call
run_call-IsValid w (apply_call now bundle turn_id) s v =
    Ends-state (λ _. IsValid) Refused IsValid (apply_bundle w now bundle turn_id s)
      (apply_bundle-Ends w now bundle turn_id s v) (λ _ t h. h) (λ e t h. h.1)
run_call-IsValid w (halt_call now reason) s v =
    Ends-state (Halted w (strip reason)) (Rejected reason s) IsValid (halt_all w now reason s)
      (halt_all-Ends w now reason s v) (λ _ t h. h.0.valid) (λ e t h. rw h.2 v)
run_call-IsValid w (mark_call now r ref) s v = mark_running-IsValid w now r ref s v
run_call-IsValid w (finish_call now r ref error) s v =
    Ends-state (λ _. IsValid) Never IsValid (finish_handle w now r ref error s)
      (finish_handle-Ends w now r ref error s v) (λ _ t h. h) (λ e t h. elim h [ ])

pub init-IsValid : IsValid init
init-IsValid = record {
  slot = elim [
    | voice_output ↦ (refl, omega arith, refl)
    | full_body_pose ↦ (refl, omega arith, refl)
  ];
  fenced = tt;
}

run-IsValid_from : (w : World) (cs : List Call) (s : Supervisor) → IsValid s → IsValid (run w cs s)
unfolding run
run-IsValid_from w [] s v = v
run-IsValid_from w (c ∷ cs) s v = run-IsValid_from w cs (run_call w c s) (run_call-IsValid w c s v)

-- Whatever is called in whatever order, and whatever the output authority answers, the supervisor
-- stays valid: a preparing or running action owns its resource under the manager's current token, a
-- stopping one has lost it, and an action waits only behind a stopping one.
pub run-IsValid : (w : World) (cs : List Call) → IsValid (run w cs init)
run-IsValid w cs = run-IsValid_from w cs init init-IsValid
