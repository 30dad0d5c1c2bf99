-- ===== src/Turns/Tests.antt =====
-- Two turns of dialogue_turns.py, the second begun while the first was pending.
use vrc_agent.Prelude.{ℕ, ◌+◌, ◌<◌, ◌≡◌, refl, true, false, List, [], ◌∷◌, ok, err, Method}
use vrc_agent.Turns.{TurnToken, init, begin_turn, is_current, claim_current, apply_if_current}
use vrc_agent.Turns.Freshness.{
  Call, begin_call, apply_call, run, run_call, claim_once, newer_wins, apply_once,
}

abbrev first : TurnToken
first = record { turn_id = "a"; version = 1 }

abbrev second : TurnToken
second = record { turn_id = "b"; version = 2 }

abbrev begun : List Call
begun = begin_call 10 "a" ∷ []

claim_once_example :
    (claim_current 30 first
      (run (begin_call 25 "b" ∷ []) (claim_current 20 first (run begun init)).1)).0
    ≡ false
unfolding claim_current run run_call begin_turn
claim_once_example = claim_once begun (begin_call 25 "b" ∷ []) 20 30 first refl

newer_wins_example :
    (is_current second (begin_turn 20 "b" (run begun init)).1 ≡ true)
    × (first.version < second.version)
    × (is_current first (run (apply_call 30 second ∷ []) (begin_turn 20 "b" (run begun init)).1)
        ≡ false)
unfolding run run_call begin_turn is_current
newer_wins_example =
    newer_wins begun (apply_call 30 second ∷ []) 20 "b" first second
      (begin_turn 20 "b" (run begun init)).1 refl refl

-- The operation counts its runs, and raises.
abbrev counting : Method ℕ (Unit {0}) (Unit {0})
counting n = (err tt, n + 1)

apply_once_example :
    let one = (apply_if_current 20 first counting (run begun init, 0)).1 in
    (one.1 ≡ 1) × (apply_if_current 30 first counting (one.0, one.1) ≡ (ok false, (one.0, one.1)))
unfolding run run_call begin_turn is_current apply_if_current
apply_once_example = apply_once begun [] 20 30 first counting 0 1 refl
