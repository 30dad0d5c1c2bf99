-- ===== src/Supervisor/Invariant/Cancelling.antt =====
-- Fencing and cancelling the current action of a resource.
use vrc_agent.Prelude.{String, ◌≡◌, ◌≢◌, true, false, none, some, arith, eq_self, returned}
use vrc_agent.Prelude.Dict.{lookup, lookup-insert}
use vrc_agent.Contracts.{ControlResource, stopping, state_beq, resource_eq, at}
use vrc_agent.Resources.{invalidate}
use vrc_agent.Supervisor.{World, Handle, Supervisor}
use vrc_agent.Supervisor.Output.{cancel_current, cancelled_handle}
use vrc_agent.Supervisor.Invariant.{Slot, SlotOk, PendingOk, Fenced, IsValid, floor}

-- A supervisor that is valid but for an action that may already wait for its current one's resource.
pub record IsActive (h : Handle) (s : Supervisor) : Type 0 where
  pub held : lookup h.command.resource s.current ≡ some h
  pub active : state_beq h.state stopping ≡ false
  pub own :
      SlotOk h.command.resource
        (at s.resources.tokens h.command.resource)
        (at s.resources.owners h.command.resource)
        (floor h.command.resource s.effects)
        (some h)
        none
  pub waiting : PendingOk h.command.resource (lookup h.command.resource s.pending)
  pub others : (r : ControlResource) → r ≢ h.command.resource → Slot r s
  pub fenced : Fenced s.effects

module _ (w : World) (h : Handle) (reason : String) (s : Supervisor) (v : IsActive h s) where
  pub cancel_current-returned : returned (cancel_current w h reason s).0 ≡ true
  unfolding cancel_current invalidate
  cancel_current-returned = ground (arith, v.own, v.active, eq_self h.command.action_id)

  cancel_current-Fenced : Fenced (cancel_current w h reason s).1.effects
  unfolding cancel_current invalidate
  cancel_current-Fenced = ground (arith, v.own, v.active, v.fenced, eq_self h.command.action_id)

  cancel_current-Slot : (r : ControlResource) → Slot r (cancel_current w h reason s).1
  unfolding cancel_current invalidate
  cancel_current-Slot r = ground (
    arith,
    v.own,
    v.active,
    v.waiting,
    v.others r,
    eq_self h.command.action_id,
    lookup-insert r h.command.resource (cancelled_handle h reason) s.current,
  )

  pub cancel_current-IsValid : IsValid (cancel_current w h reason s).1
  cancel_current-IsValid = record { slot = cancel_current-Slot; fenced = cancel_current-Fenced }
