-- ===== src/Supervisor/Invariant/Bundles.antt =====
-- `apply_bundle` keeps the invariant, and raises only for what its caller or the id factory did.
use vrc_agent.Prelude.{some, ◌≡◌, ◌>>=◌}
use vrc_agent.Prelude.Ends.{Ends-check}
use vrc_agent.Supervisor.{commit, bundle_error}
use vrc_agent.Supervisor.Output.{touch}
use vrc_agent.Prelude.{map, modify, pure, ◌>>◌}
use vrc_agent.Prelude.{eq_iff, arith, is_empty, ◌+◌, String, ℕ, ◌≢◌, List, [], ◌∷◌, ◌>>=◌}
use vrc_agent.Prelude.Ends.{Ends, Ends-returned, Ends-bind, Ends-guard}
use vrc_agent.Supervisor.{
  bad_action_id, Sup, ActionBundle, Action, apply_bundle, draw, World, PendingAction, Supervisor,
  SupervisorError, empty_turn_id, resource_error, schedule, schedule_all,
}
use vrc_agent.Supervisor.Invariant.{IsValid}
use vrc_agent.Supervisor.Invariant.Scheduling.{schedule-returned, schedule-IsValid}

-- The errors that refuse a request; an error of the resource manager is none of them.
abbrev pub IsRefusal : SupervisorError → Type 0
IsRefusal (resource_error e) = ⊥
IsRefusal empty_turn_id = Unit
IsRefusal _ = Unit

-- What a raise leaves: a valid supervisor, and a request that was refused.
abbrev pub Refused : SupervisorError → Supervisor → Type 0
Refused e s = IsRefusal e × IsValid s

abbrev Named : List PendingAction → Type 0
Named [] = Unit
Named (p ∷ ps) = (p.action_id ≢ "") × Named ps

abbrev Valid : Unit {0} → Supervisor → Type 0
Valid _ s = IsValid s

schedule_all-Ends :
    (w : World) (now : ℕ) (ps : List PendingAction) (s : Supervisor)
    → IsValid s
    → Named ps
    → Ends Valid Refused (schedule_all w now ps s)
unfolding schedule_all
schedule_all-Ends w now [] s v n = v
schedule_all-Ends w now (p ∷ ps) s v n =
    Ends-bind Valid Valid Refused (schedule w now p) (λ _. schedule_all w now ps) s
      (Ends-returned IsValid Refused (schedule w now p s) (schedule-returned w now p s v n.0)
        (schedule-IsValid w now p s v n.0))
      (λ _ s' v'. schedule_all-Ends w now ps s' v' n.1)

abbrev Drawn : List PendingAction → Supervisor → Type 0
Drawn ps s = Named ps × IsValid s

-- The last step of `draw`.
abbrev drawn_first : ℕ → String → Action → String → List PendingAction → Sup (List PendingAction)
drawn_first now turn_id a id others =
    pure (record { action_id = id; turn_id = turn_id; action = a; requested = now } ∷ others)

draw-Ends :
    (w : World) (now : ℕ) (turn_id : String) (actions : List Action) (s : Supervisor)
    → IsValid s
    → Ends Drawn Refused (draw w now turn_id actions s)
unfolding draw
draw-Ends w now turn_id [] s v = (tt, v)
draw-Ends w now turn_id (a ∷ rest) s v =
    let s' : Supervisor = record s { drawn = s.drawn + 1 } in
    let v' : IsValid s' = record { slot = v.slot; fenced = v.fenced } in
    Ends-guard Drawn Refused (is_empty (w.new_id s.drawn)) bad_action_id
      (λ _. draw w now turn_id rest >>= drawn_first now turn_id a (w.new_id s.drawn)) s'
      (λ _. (tt, v'))
      λ named.
        Ends-bind Drawn Drawn Refused (draw w now turn_id rest)
          (drawn_first now turn_id a (w.new_id s.drawn)) s' (draw-Ends w now turn_id rest s' v')
          (λ ps s'' d. ((ground (arith, eq_iff (w.new_id s.drawn) ""), d.0), d.1))

abbrev Applied : List String → Supervisor → Type 0
Applied _ s = IsValid s

commit-Ends :
    (w : World) (now : ℕ) (ps : List PendingAction) (s : Supervisor)
    → Drawn ps s
    → Ends Applied Refused (commit w now ps s)
unfolding commit
commit-Ends w now ps s d =
    Ends-bind Valid Applied Refused (schedule_all w now ps) (finish ps) s
      (schedule_all-Ends w now ps s d.1 d.0) (λ _ s' v. record { slot = v.slot; fenced = v.fenced })
  where
    finish : List PendingAction → Unit {0} → Sup (List String)
    finish drawn _ = modify (touch now) >> pure (map (λ p. p.action_id) drawn)

bundle_error-IsRefusal :
    (w : World) (actions : List Action) (turn_id : String) (e : SupervisorError)
    → bundle_error w actions turn_id ≡ some e
    → IsRefusal e
unfolding bundle_error
bundle_error-IsRefusal w actions turn_id e h = ground arith

-- Applied to a valid supervisor, a bundle leaves a valid one, and raises only to refuse the request:
-- the resource manager never refuses the supervisor.
pub apply_bundle-Ends :
    (w : World) (now : ℕ) (bundle : ActionBundle) (turn_id : String) (s : Supervisor)
    → IsValid s
    → Ends (λ _. IsValid) Refused (apply_bundle w now bundle turn_id s)
unfolding apply_bundle
apply_bundle-Ends w now bundle turn_id s v =
    Ends-check Applied Refused (bundle_error w bundle.actions turn_id)
      (λ _. draw w now turn_id bundle.actions >>= commit w now) s
      (λ e h. (bundle_error-IsRefusal w bundle.actions turn_id e h, v))
      (Ends-bind Drawn Applied Refused (draw w now turn_id bundle.actions) (commit w now) s
        (draw-Ends w now turn_id bundle.actions s v) (λ ps s' d. commit-Ends w now ps s' d))
