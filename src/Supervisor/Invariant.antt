-- ===== src/Supervisor/Invariant.antt =====
-- The invariant of character_supervisor.py: each resource's slot agrees with the manager's owner and
-- token, and what went to the output authority is fenced.
pub mod Starting
pub mod Cancelling
pub mod Scheduling
pub mod Bundles
pub mod Finishing
pub mod Halting
use vrc_agent.Prelude.{
  ℕ, suc, ◌+◌, ◌≤◌, ◌<◌, String, ◌≡◌, ◌≢◌, Bool, true, false, Option, none, some, List, [], ◌∷◌,
  ◌==◌, max, if◌then◌else◌,
}
use vrc_agent.Prelude.Dict.{lookup}
use vrc_agent.Contracts.{
  ControlResource, ActionState, preparing, running, stopping, completed, cancelled, failed,
  resource, ResourceLease, ExecutionCommand, resource_beq, resource_eq, at,
}
use vrc_agent.Supervisor.{
  Effect, authorize, neutralize, start_thread, signal_cancel, done, PendingAction, Handle,
  Supervisor,
}

-- The least token above every lease that was authorised for a resource.
abbrev pub floor : ControlResource → List Effect → ℕ
floor r [] = 0
floor r (authorize l ∷ es) =
    let rest = floor r es in if resource_beq l.resource r then max (l.token + 1) rest else rest
floor r (neutralize q t ∷ es) = floor r es
floor r (start_thread c ∷ es) = floor r es
floor r (signal_cancel c ∷ es) = floor r es
floor r (done ref ∷ es) = floor r es

-- The newest effect put the resource in neutral, with a token above that of the command's lease.
abbrev pub CutOff : ExecutionCommand → List Effect → Type 0
CutOff c (neutralize r t ∷ es) = (r ≡ c.resource) × (c.lease_token < t)
CutOff c _ = ⊥

-- The newest effect authorised the command's lease.
abbrev pub Granted : ExecutionCommand → List Effect → Type 0
Granted c (authorize l ∷ es) =
    (l.resource ≡ c.resource) × (l.token ≡ c.lease_token) × (l.action_id ≡ some c.action_id)
Granted c _ = ⊥

-- Each lease that is authorised, and each neutral output, carries a token above those of all leases
-- authorised before it on the resource; a thread starts right after its lease was authorised; a
-- cancel signal comes right after the neutral output that fences its lease.
abbrev pub Fenced : List Effect → Type 0
Fenced [] = Unit
Fenced (authorize l ∷ es) = (floor l.resource es ≤ l.token) × Fenced es
Fenced (neutralize r t ∷ es) = (floor r es ≤ t) × Fenced es
Fenced (start_thread c ∷ es) = Granted c es × Fenced es
Fenced (signal_cancel c ∷ es) = CutOff c es × Fenced es
Fenced (done ref ∷ es) = Fenced es

abbrev pub PendingOk : ControlResource → Option PendingAction → Type 0
PendingOk r none = Unit
PendingOk r (some p) = (resource p.action ≡ r) × (p.action_id ≢ "")

-- A current action: while it is preparing or running it owns its resource under its lease, and
-- nothing waits; once it is stopping it owns nothing, and its lease is behind the token.
abbrev pub Phase : ActionState → ℕ → Option String → ℕ → Handle → Option PendingAction → Type 0
Phase preparing t owner fl h p =
    (owner ≡ some h.command.action_id)
    × (h.command.lease_token ≡ t)
    × (h.cancel_set ≡ false)
    × (fl ≤ t + 1)
    × (p ≡ none)
Phase running t owner fl h p =
    (owner ≡ some h.command.action_id)
    × (h.command.lease_token ≡ t)
    × (h.cancel_set ≡ false)
    × (fl ≤ t + 1)
    × (p ≡ none)
Phase stopping t owner fl h p =
    (owner ≡ none)
    × (h.command.lease_token < t)
    × (h.cancel_set ≡ true)
    × (fl ≤ t)
    × PendingOk h.command.resource p
Phase _ t owner fl h p = ⊥

abbrev pub SlotOk :
    ControlResource → ℕ → Option String → ℕ → Option Handle → Option PendingAction → Type 0
SlotOk r t owner fl none p = (owner ≡ none) × (fl ≤ t) × (p ≡ none)
SlotOk r t owner fl (some h) p =
    (h.command.resource ≡ r) × (h.command.action_id ≢ "") × Phase h.state t owner fl h p

abbrev pub Slot : ControlResource → Supervisor → Type 0
Slot r s =
    SlotOk r (at s.resources.tokens r) (at s.resources.owners r) (floor r s.effects)
      (lookup r s.current) (lookup r s.pending)

pub record IsValid (s : Supervisor) : Type 0 where
  pub slot : (r : ControlResource) → Slot r s
  pub fenced : Fenced s.effects
