-- ===== src/Supervisor/Invariant/Scheduling.antt =====
-- Scheduling an action, and applying a bundle.
use vrc_agent.Prelude.{
  ℕ, ◌≡◌, ◌≢◌, refl, true, false, Option, none, some, arith, returned, inl, inr, Option-cases,
  Bool-cases,
}
use vrc_agent.Prelude.Dict.{lookup, lookup-insert}
use vrc_agent.Contracts.{ControlResource, stopping, state_beq, resource, resource_eq}
use vrc_agent.Supervisor.{World, Handle, PendingAction, Supervisor, enqueue, schedule, schedule_on}
use vrc_agent.Supervisor.Output.{start}
use vrc_agent.Supervisor.Invariant.{Slot, IsValid}
use vrc_agent.Supervisor.Invariant.Cancelling.{
  IsActive, cancel_current-returned, cancel_current-IsValid,
}
use vrc_agent.Supervisor.Invariant.Starting.{start-returned, start-IsValid}

pub free-waiting :
    (r : ControlResource) (s : Supervisor)
    → Slot r s
    → lookup r s.current ≡ none
    → lookup r s.pending ≡ none
free-waiting r s v e = ground arith

pub held-resource :
    (r : ControlResource) (s : Supervisor) (h : Handle)
    → Slot r s
    → lookup r s.current ≡ some h
    → h.command.resource ≡ r
held-resource r s h v e = ground arith

module _ (w : World) (now : ℕ) (p : PendingAction) (s : Supervisor) (v : IsValid s)
    (named : p.action_id ≢ "") where
  module _ (previous : Option PendingAction) (h : Handle)
      (held : lookup (resource p.action) s.current ≡ some h) where
    enqueue-IsValid : state_beq h.state stopping ≡ true → IsValid (enqueue w now p s previous)
    unfolding enqueue
    enqueue-IsValid e = record {
      slot = λ r. ground (
        arith,
        v.slot r,
        v.slot (resource p.action),
        lookup-insert r (resource p.action) p s.pending,
      );
      fenced = ground (arith, v.fenced);
    }

    enqueue-IsActive : state_beq h.state stopping ≡ false → IsActive h (enqueue w now p s previous)
    unfolding enqueue
    enqueue-IsActive e = record {
      held = ground (arith, v.slot (resource p.action));
      active = e;
      own = ground (arith, v.slot (resource p.action));
      waiting = ground (
        arith,
        v.slot (resource p.action),
        lookup-insert (resource p.action) (resource p.action) p s.pending,
      );
      others = λ r ne. ground (
        arith,
        v.slot r,
        v.slot (resource p.action),
        lookup-insert r (resource p.action) p s.pending,
      );
      fenced = ground (arith, v.fenced);
    }

  pub schedule-returned : returned (schedule w now p s).0 ≡ true
  unfolding schedule schedule_on start
  schedule-returned = elim (Option-cases (lookup (resource p.action) s.current)) [
    | inl free ↦
        rw (free, free-waiting (resource p.action) s (v.slot (resource p.action)) free)
          (start-returned w now p s v free named)
    | inr (h, held) ↦ rw held (elim (Bool-cases (state_beq h.state stopping)) [
      | inl e ↦ rw e refl
      | inr e ↦ rw e (
          cancel_current-returned w h "replaced" _
            (enqueue-IsActive (lookup (resource p.action) s.pending) h held e))
    ])
  ]

  pub schedule-IsValid : IsValid (schedule w now p s).1
  unfolding schedule schedule_on start
  schedule-IsValid = elim (Option-cases (lookup (resource p.action) s.current)) [
    | inl free ↦
        rw (free, free-waiting (resource p.action) s (v.slot (resource p.action)) free)
          (start-IsValid w now p s v free named)
    | inr (h, held) ↦ rw held (elim (Bool-cases (state_beq h.state stopping)) [
      | inl e ↦ rw e (enqueue-IsValid (lookup (resource p.action) s.pending) h held e)
      | inr e ↦ rw e (
          cancel_current-IsValid w h "replaced" _
            (enqueue-IsActive (lookup (resource p.action) s.pending) h held e))
    ])
  ]
