-- ===== src/Supervisor/Tests.antt =====
-- Runs of character_supervisor.py at concrete inputs.
use vrc_agent.Contracts.Tests.{payload, plan, no_behaviors, plan_parsed}
use vrc_agent.Supervisor.Planned.{validated_accepted}
use vrc_agent.Supervisor.{bundle_error}
use vrc_agent.Supervisor.State.{authorize, start_thread, neutralize, signal_cancel}
use vrc_agent.Supervisor.Output.{start, cancel_current}
use vrc_agent.Resources.{invalidate, acquire}
use vrc_agent.Prelude.{strip, List, [], ◌∷◌, ◌≡◌, refl, true, none, some}
use vrc_agent.Contracts.{ExecutionCommand, ActionBundle, say_action, voice_output}
use vrc_agent.Prelude.Ends.{Ends, Never}
use vrc_agent.Supervisor.{
  schedule_on, schedule, World, Supervisor, apply_bundle, halt_all, finish_handle,
}
use vrc_agent.Supervisor.Invariant.{IsValid}
use vrc_agent.Supervisor.Invariant.Bundles.{Refused, apply_bundle-Ends}
use vrc_agent.Supervisor.Invariant.Halting.{Halted, Rejected, halt_all-Ends}
use vrc_agent.Supervisor.Invariant.Finishing.{finish_handle-Ends}
use vrc_agent.Supervisor.Runs.{
  run_call, Call, apply_call, halt_call, mark_call, finish_call, init, run, run-IsValid,
}

-- Both kinds of action are managed, the output authority always answers, and ids are not empty.
abbrev world : World
world = record { managed = λ _. true; history_limit = 50; answer = λ _ _. none; new_id = λ n. "id" }

abbrev say_hello : ActionBundle
say_hello = record { actions = say_action "hello" ∷ [] }

-- An action that runs, is replaced, and ends; then its replacement is halted.
abbrev calls : List Call
calls =
    apply_call 5 say_hello "turn"
    ∷ mark_call 6 voice_output 0
    ∷ apply_call 9 say_hello "next"
    ∷ finish_call 12 voice_output 0 none
    ∷ halt_call 15 "operator"
    ∷ []

abbrev speaking : Supervisor
speaking = run world (apply_call 5 say_hello "turn" ∷ []) init

abbrev command : ExecutionCommand
command = record {
  action_id = "id";
  turn_id = "turn";
  action = say_action "hello";
  resource = voice_output;
  lease_token = 1;
}

-- A second bundle fences the first action: neutral output at token 2, then the cancel signal.
replaced_effects :
    (run world (apply_call 9 say_hello "next" ∷ []) speaking).effects
    ≡ signal_cancel command
      ∷ neutralize voice_output 2
      ∷ start_thread command
      ∷ authorize (record { resource = voice_output; token = 1; action_id = some "id" })
      ∷ []
unfolding run run_call apply_bundle schedule schedule_on start cancel_current acquire invalidate
replaced_effects = refl

run-IsValid_example : IsValid (run world calls init)
run-IsValid_example = run-IsValid world calls

apply_bundle-Ends_example :
    Ends (λ _. IsValid) Refused (apply_bundle world 9 say_hello "next" speaking)
apply_bundle-Ends_example =
    apply_bundle-Ends world 9 say_hello "next" speaking
      (run-IsValid world (apply_call 5 say_hello "turn" ∷ []))

halt_all-Ends_example :
    Ends
      (Halted world (strip " operator "))
      (Rejected " operator " speaking)
      (halt_all world 15 " operator " speaking)
halt_all-Ends_example =
    halt_all-Ends world 15 " operator " speaking
      (run-IsValid world (apply_call 5 say_hello "turn" ∷ []))

finish_handle-Ends_example :
    Ends (λ _. IsValid) Never (finish_handle world 12 voice_output 0 (some "boom") speaking)
finish_handle-Ends_example =
    finish_handle-Ends world 12 voice_output 0 (some "boom") speaking
      (run-IsValid world (apply_call 5 say_hello "turn" ∷ []))

validated_accepted_example : bundle_error world plan.actions "turn" ≡ none
validated_accepted_example =
    validated_accepted world no_behaviors payload plan "turn" (λ t. refl) (λ e. cc e) plan_parsed
