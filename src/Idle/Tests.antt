-- ===== src/Idle/Tests.antt =====
-- A day of idle_behavior_policy.py with two behaviours.
use vrc_agent.Idle.{Settings, Submission, took, init, interrupt, tick}
use vrc_agent.Idle.Cycle.{Call, tick_call, run, run_call, round_robin, waits_interval}
use vrc_agent.Prelude.{
  ◌+◌, ◌≤◌, ◌≡◌, ◌%◌, refl, String, true, some, List, [], ◌∷◌, arith, get_elem?,
}

abbrev settings : Settings
settings = record { enabled = true; interval = 1000; pool = "wave" ∷ "look" ∷ [] }

abbrev accept : String → Submission
accept key = took "id"

-- One behaviour was accepted, and the second is due.
abbrev calls : List Call
calls = tick_call 0 true accept ∷ tick_call 1000 true accept ∷ tick_call 1500 true accept ∷ []

round_robin_example :
    get_elem? {A = String} ("wave" ∷ "look" ∷ []) ((run settings calls (init settings, 0)).1 % 2)
    ≡ some "look"
unfolding run run_call tick
round_robin_example = round_robin settings calls 2500 true accept "look" refl

abbrev later : List Call
later = tick_call 1600 true accept ∷ []

waits_interval_example : (true ≡ true) × (1600 + 1000 ≤ 2600)
unfolding run run_call tick interrupt
waits_interval_example =
    waits_interval settings 1600 (init settings) 0 later 2600 true accept "wave" (omega arith)
      (omega arith, tt) (omega arith) refl
