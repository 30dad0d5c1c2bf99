-- ===== src/Cue/Tests.antt =====
-- A cue of motion_cue.py that plays.
use vrc_agent.Cue.{
  Cue, PlaybackStarted, cue_started, init, bind_prompt_revision, observe_playback, is_due,
  timeout_kind, playback_expired, next_deadline,
}
use vrc_agent.Cue.Phases.{
  Call, bind_call, return_call, observe_call, run, run_call, IsValid, calls_keep_phases,
  next_deadline_lem, starts_once,
}
use vrc_agent.Prelude.Int.{pos}
use vrc_agent.Prelude.{◌≡◌, ◌≢◌, refl, false, List, [], ◌∷◌, ◌||◌, not, is_none}

abbrev event : PlaybackStarted
event = record { revision = pos 3; started = 1200 }

abbrev fresh : Cue
fresh = init "id" "turn" "wave" 2000 false

abbrev bound : Cue
bound = run (bind_call (pos 3) 1000 500 ∷ []) fresh

abbrev calls : List Call
calls = observe_call event ∷ return_call (pos 4) 3300 500 ∷ []

calls_keep_phases_example : IsValid (run (bind_call (pos 3) 1000 500 ∷ calls) fresh)
calls_keep_phases_example =
    calls_keep_phases "id" "turn" "wave" 2000 false (bind_call (pos 3) 1000 500 ∷ calls)

next_deadline_lem_example :
    (not (is_none (timeout_kind 1500 bound)) || playback_expired 1500 bound)
    ≡ is_due 1500 (next_deadline bound)
next_deadline_lem_example = next_deadline_lem 1500 bound

starts_once_example :
    (observe_playback event
      (run (return_call (pos 4) 3300 500 ∷ []) (observe_playback event bound).1)).0
    ≢ cue_started
unfolding run run_call bind_prompt_revision observe_playback
starts_once_example =
    starts_once event event bound (return_call (pos 4) 3300 500 ∷ []) refl (refl, tt)
