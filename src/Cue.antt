-- ===== src/Cue.antt =====
-- `MotionCue` of vrc_ardy_agent/motion_cue.py: one cue from its prompt to the return to idle. Times
-- are whole milliseconds, so the checks that a float is finite have nothing to refuse; revisions are
-- signed.
pub mod Phases
mod Tests
use vrc_agent.Prelude.{
  ℕ, ◌+◌, ◌≡◌, String, Bool, true, false, Option, none, some, ◌&&◌, ◌||◌, not, is_empty, is_value,
  nat_eq, ◌==◌, leb, if◌then◌else◌, Result, ok, err, Method, Eq,
}
use vrc_agent.Prelude.Int.{ℤ, pos, leb_ℤ, eqb_ℤ}

pub data Phase : Type 0 where
  preparing playing returning_idle : Phase

pub data Observation : Type 0 where
  ignored cue_started idle_started : Observation

pub record Cue : Type 0 where
  pub action_id : String
  pub turn_id : String
  pub prompt : String
  pub duration : ℕ
  pub phase : Phase
  pub prompt_revision : Option ℤ
  pub prepare_deadline : Option ℕ
  pub started : Option ℕ
  pub playback_deadline : Option ℕ
  pub idle_revision : Option ℤ
  pub idle_deadline : Option ℕ
  pub completion_driven : Bool

-- What the cue reads of a `PromptPlaybackStarted`.
pub record PlaybackStarted : Type 0 where
  pub revision : ℤ
  pub started : ℕ

pub data CueError : Type 0 where
  empty_action_id empty_turn_id empty_prompt bad_duration not_playing bad_revision bad_timeout :
      CueError

abbrev pub init : String → String → String → ℕ → Bool → Cue
init action_id turn_id prompt duration completion_driven = record {
  action_id = action_id;
  turn_id = turn_id;
  prompt = prompt;
  duration = duration;
  phase = preparing;
  prompt_revision = none;
  prepare_deadline = none;
  started = none;
  playback_deadline = none;
  idle_revision = none;
  idle_deadline = none;
  completion_driven = completion_driven;
}

-- `__post_init__`
unfoldable pub make : String → String → String → ℕ → Bool → Result CueError Cue
make action_id turn_id prompt duration completion_driven =
    if is_empty action_id
    then err empty_action_id
    else if is_empty turn_id
    then err empty_turn_id
    else if is_empty prompt
    then err empty_prompt
    else if duration == 0
    then err bad_duration
    else ok (init action_id turn_id prompt duration completion_driven)

abbrev is_playing : Phase → Bool
is_playing playing = true
is_playing _ = false

-- `_validate_revision` and `_validate_timeout`, around the state that follows.
abbrev validated : ℤ → ℕ → Cue → Cue → Result CueError (Unit {0}) × Cue
validated revision timeout c c' =
    if leb_ℤ revision (pos 0)
    then (err bad_revision, c)
    else if timeout == 0
    then (err bad_timeout, c)
    else (ok tt, c')

unfoldable pub bind_prompt_revision : ℤ → ℕ → ℕ → Method Cue CueError (Unit {0})
bind_prompt_revision revision now timeout c = validated revision timeout c (record c {
  phase = preparing;
  prompt_revision = some revision;
  prepare_deadline = some (now + timeout);
  started = none;
  playback_deadline = none;
  idle_revision = none;
  idle_deadline = none;
})

unfoldable pub begin_return_to_idle : ℤ → ℕ → ℕ → Method Cue CueError (Unit {0})
begin_return_to_idle revision now timeout c =
    let returned : Cue = record c {
      phase = returning_idle;
      idle_revision = some revision;
      idle_deadline = some (now + timeout);
    } in
    if not (is_playing c.phase) then (err not_playing, c) else validated revision timeout c returned

-- `event.revision == revision`
abbrev is_revision : ℤ → Option ℤ → Bool
is_revision r none = false
is_revision r (some q) = eqb_ℤ r q

abbrev observe_in : PlaybackStarted → Cue → Phase → Observation × Cue
observe_in event c preparing =
    if is_revision event.revision c.prompt_revision
    then (
      cue_started,
      record c {
        phase = playing;
        prepare_deadline = none;
        started = some event.started;
        playback_deadline = some (event.started + c.duration);
      },
    )
    else (ignored, c)
observe_in event c playing = (ignored, c)
observe_in event c returning_idle =
    (if is_revision event.revision c.idle_revision then idle_started else ignored, c)

unfoldable pub observe_playback : PlaybackStarted → Cue → Observation × Cue
observe_playback event c = observe_in event c c.phase

-- Whether a deadline is set and has come.
abbrev pub is_due : ℕ → Option ℕ → Bool
is_due now none = false
is_due now (some d) = leb d now

pub data Timeout : Type 0 where
  cue_playback idle_playback : Timeout

abbrev timeout_in : ℕ → Cue → Phase → Option Timeout
timeout_in now c preparing = if is_due now c.prepare_deadline then some cue_playback else none
timeout_in now c playing = none
timeout_in now c returning_idle = if is_due now c.idle_deadline then some idle_playback else none

unfoldable pub timeout_kind : ℕ → Cue → Option Timeout
timeout_kind now c = timeout_in now c c.phase

unfoldable pub playback_expired : ℕ → Cue → Bool
playback_expired now c =
    is_playing c.phase && not c.completion_driven && is_due now c.playback_deadline

abbrev deadline_in : Cue → Phase → Option ℕ
deadline_in c preparing = c.prepare_deadline
deadline_in c playing = if c.completion_driven then none else c.playback_deadline
deadline_in c returning_idle = c.idle_deadline

unfoldable pub next_deadline : Cue → Option ℕ
next_deadline c = deadline_in c c.phase
