-- ===== src/Cue/Phases.antt =====
-- The phases of motion_cue.py and their deadlines.
use vrc_agent.Cue.{
  Phase, preparing, playing, returning_idle, Cue, PlaybackStarted, cue_started, init,
  bind_prompt_revision, begin_return_to_idle, observe_playback, is_due, timeout_kind,
  playback_expired, next_deadline,
}
use vrc_agent.Prelude.Int.{ℤ}
use vrc_agent.Prelude.{
  All, ℕ, ◌+◌, ◌≡◌, ◌≢◌, refl, String, Bool, true, false, none, some, List, [], ◌∷◌, ◌||◌, not,
  is_none, arith,
}

pub data Call : Type 0 where
  bind_call : ℤ → ℕ → ℕ → Call
  return_call : ℤ → ℕ → ℕ → Call
  observe_call : PlaybackStarted → Call

unfoldable pub run_call : Call → Cue → Cue
run_call (bind_call revision now timeout) c = (bind_prompt_revision revision now timeout c).1
run_call (return_call revision now timeout) c = (begin_return_to_idle revision now timeout c).1
run_call (observe_call event) c = (observe_playback event c).1

unfoldable pub run : List Call → Cue → Cue
unfolding run_call
run [] c = c
run (call ∷ calls) c = run calls (run_call call c)

-- The playback started at a time, and lasts for the cue's duration from there.
abbrev pub HasPlayed : Cue → Type 0
HasPlayed c =
    (c.prepare_deadline ≡ none)
    × (c.started ≢ none)
    × (c.playback_deadline ≡ (elim c.started [ none ↦ none | some t ↦ some (t + c.duration) ]))

-- What each phase has set and what it has not.
abbrev pub PhaseOk : Cue → Phase → Type 0
PhaseOk c preparing =
    (is_none c.prompt_revision ≡ is_none c.prepare_deadline)
    × (c.started ≡ none)
    × (c.playback_deadline ≡ none)
    × (c.idle_revision ≡ none)
    × (c.idle_deadline ≡ none)
PhaseOk c playing = HasPlayed c × (c.idle_revision ≡ none) × (c.idle_deadline ≡ none)
PhaseOk c returning_idle = HasPlayed c × (c.idle_revision ≢ none) × (c.idle_deadline ≢ none)

abbrev pub IsValid : Cue → Type 0
IsValid c = PhaseOk c c.phase

run_call-IsValid : (call : Call) (c : Cue) → IsValid c → IsValid (run_call call c)
unfolding run_call bind_prompt_revision begin_return_to_idle observe_playback
run_call-IsValid (bind_call revision now timeout) c v = ground (arith, v)
run_call-IsValid (return_call revision now timeout) c v = ground (arith, v)
run_call-IsValid (observe_call event) c v = ground (arith, v)

run-IsValid_from : (calls : List Call) (c : Cue) → IsValid c → IsValid (run calls c)
unfolding run
run-IsValid_from [] c v = v
run-IsValid_from (call ∷ calls) c v =
    run-IsValid_from calls (run_call call c) (run_call-IsValid call c v)

-- Whatever is called on a new cue, refused or not: while it prepares, only the prompt's revision and
-- deadline are set, or neither; once it plays, the playback's deadline lies the cue's duration after
-- its start; and the idle revision and deadline are set exactly while it returns to idle.
pub calls_keep_phases :
    (action_id turn_id prompt : String) (duration : ℕ) (driven : Bool) (calls : List Call)
    → IsValid (run calls (init action_id turn_id prompt duration driven))
calls_keep_phases action_id turn_id prompt duration driven calls =
    run-IsValid_from calls (init action_id turn_id prompt duration driven)
      (refl, refl, refl, refl, refl)

-- A cue has timed out or its playback is over exactly when the deadline that it announces has come.
pub next_deadline_lem :
    (now : ℕ) (c : Cue)
    → (not (is_none (timeout_kind now c)) || playback_expired now c) ≡ is_due now (next_deadline c)
unfolding timeout_kind playback_expired next_deadline
next_deadline_lem now c = ground arith

abbrev is_bind : Call → Bool
is_bind (bind_call revision now timeout) = true
is_bind _ = false

-- A call that is not `bind_prompt_revision`.
abbrev pub NoBind : Call → Type 0
NoBind call = is_bind call ≡ false

abbrev HasStarted : Cue → Type 0
HasStarted c = c.phase ≢ preparing

run_call-HasStarted :
    (call : Call) (c : Cue) → NoBind call → HasStarted c → HasStarted (run_call call c)
unfolding run_call begin_return_to_idle observe_playback
run_call-HasStarted (bind_call revision now timeout) c unbound h = cc
run_call-HasStarted (return_call revision now timeout) c unbound h = ground (arith, h)
run_call-HasStarted (observe_call event) c unbound h = ground (arith, h)

run-HasStarted :
    (calls : List Call) (c : Cue) → All NoBind calls → HasStarted c → HasStarted (run calls c)
unfolding run
run-HasStarted [] c unbound h = h
run-HasStarted (call ∷ calls) c unbound h =
    run-HasStarted calls (run_call call c) unbound.1 (run_call-HasStarted call c unbound.0 h)

observed-HasStarted :
    (event : PlaybackStarted) (c : Cue)
    → (observe_playback event c).0 ≡ cue_started
    → HasStarted (observe_playback event c).1
unfolding observe_playback
observed-HasStarted event c h = ground arith

started-ignores :
    (event : PlaybackStarted) (c : Cue) → HasStarted c → (observe_playback event c).0 ≢ cue_started
unfolding observe_playback
started-ignores event c h = ground (arith, h)

-- A cue that has been seen to start is not seen to start again, whatever events and returns to idle
-- follow, unless a prompt revision is bound to it again.
pub starts_once :
    (event again : PlaybackStarted) (c : Cue) (calls : List Call)
    → (observe_playback event c).0 ≡ cue_started
    → All NoBind calls
    → (observe_playback again (run calls (observe_playback event c).1)).0 ≢ cue_started
starts_once event again c calls first unbound =
    started-ignores again (run calls (observe_playback event c).1) (
      run-HasStarted calls (observe_playback event c).1 unbound (observed-HasStarted event c first))
