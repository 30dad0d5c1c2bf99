-- ===== src/Supervisor/Invariant/Starting.antt =====
-- Starting an action on a free resource.
use vrc_agent.Prelude.{ℕ, ◌≡◌, ◌≢◌, true, none, some, arith, eq_iff, eq_self, ◌+◌, returned}
use vrc_agent.Prelude.Dict.{lookup, lookup-insert}
use vrc_agent.Contracts.{ControlResource, resource, ResourceLease, resource_eq, at}
use vrc_agent.Resources.{acquire, invalidate}
use vrc_agent.Supervisor.{World, PendingAction, Supervisor}
use vrc_agent.Supervisor.Output.{start, new_handle}
use vrc_agent.Supervisor.Invariant.{Slot, Fenced, IsValid}

module _ (w : World) (now : ℕ) (p : PendingAction) (s : Supervisor) (v : IsValid s)
    (free : lookup (resource p.action) s.current ≡ none) (named : p.action_id ≢ "") where
  abbrev granted : ResourceLease
  granted = record {
    resource = resource p.action;
    token = at s.resources.tokens (resource p.action) + 1;
    action_id = some p.action_id;
  }

  pub start-returned : returned (start w now p s).0 ≡ true
  unfolding start acquire invalidate
  start-returned =
      ground (arith, v.slot (resource p.action), eq_iff p.action_id "", eq_self p.action_id)

  start-Fenced : Fenced (start w now p s).1.effects
  unfolding start acquire invalidate
  start-Fenced =
      ground
        (arith, v.slot (resource p.action), v.fenced, eq_iff p.action_id "", eq_self p.action_id)

  start-Slot : (r : ControlResource) → Slot r (start w now p s).1
  unfolding start acquire invalidate
  start-Slot r = ground (
    arith,
    v.slot (resource p.action),
    v.slot r,
    eq_iff p.action_id "",
    eq_self p.action_id,
    lookup-insert r (resource p.action) (new_handle p granted s.next_ref) s.current,
  )

  pub start-IsValid : IsValid (start w now p s).1
  start-IsValid = record { slot = start-Slot; fenced = start-Fenced }
