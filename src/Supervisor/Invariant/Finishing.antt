-- ===== src/Supervisor/Invariant/Finishing.antt =====
-- The calls of an executor's thread: `mark_running` and `_finish_handle`.
use vrc_agent.Supervisor.Invariant.Scheduling.{held-resource}
use vrc_agent.Prelude.{modify, ◌==◌, nat_eq}
use vrc_agent.Supervisor.Invariant.Starting.{start-IsValid, start-returned}
use vrc_agent.Prelude.Ends.{Ends-returned, Ends-bind, Never, Ends}
use vrc_agent.Prelude.{
  Bool-cases, String, Option, ℕ, ◌≤◌, ◌≡◌, ◌≢◌, true, none, some, arith, nat_eq, eq_self, returned,
  inl, inr, Option-cases,
}
use vrc_agent.Prelude.Dict.{lookup-erase, erase, lookup, lookup-insert}
use vrc_agent.Contracts.{resource, resource_beq_iff, ControlResource, running, resource_eq, at}
use vrc_agent.Resources.{invalidate}
use vrc_agent.Supervisor.{
  touch, start, retire, PendingAction, finish_owned, start_next, finish_handle, World, Handle,
  Supervisor, mark_running, release,
}
use vrc_agent.Supervisor.Invariant.{Slot, PendingOk, Fenced, IsValid, floor}

pub mark_running-IsValid :
    (w : World) (now : ℕ) (r : ControlResource) (ref : ℕ) (s : Supervisor)
    → IsValid s
    → IsValid (mark_running w now r ref s)
unfolding mark_running
mark_running-IsValid w now r ref s v = elim (Option-cases (lookup r s.current)) [
  | inl e ↦ rw e v
  | inr (h, e) ↦ rw e (record {
    slot = λ q. ground (
      arith,
      v.slot q,
      v.slot r,
      e,
      lookup-insert q r (record h { state = running; started = some now }) s.current,
    );
    fenced = ground (arith, v.fenced);
  })
]

-- A resource that an ending action has given up.
pub record IsReleased (r : ControlResource) (s : Supervisor) : Type 0 where
  pub unowned : at s.resources.owners r ≡ none
  pub above : floor r s.effects ≤ at s.resources.tokens r
  pub waiting : PendingOk r (lookup r s.pending)
  pub others : (q : ControlResource) → q ≢ r → Slot q s
  pub fenced : Fenced s.effects

module _ (w : World) (h : Handle) (s : Supervisor) (v : IsValid s)
    (held : lookup h.command.resource s.current ≡ some h) where
  release-returned : returned (release w h s).0 ≡ true
  unfolding release invalidate
  release-returned = ground (arith, v.slot h.command.resource, eq_self h.command.action_id)

  release-IsReleased : IsReleased h.command.resource (release w h s).1
  unfolding release invalidate
  release-IsReleased = record {
    unowned = ground (arith, v.slot h.command.resource, eq_self h.command.action_id);
    above = ground (arith, v.slot h.command.resource, eq_self h.command.action_id);
    waiting = ground (arith, v.slot h.command.resource, eq_self h.command.action_id);
    others =
        λ q ne. ground (arith, v.slot h.command.resource, v.slot q, eq_self h.command.action_id);
    fenced = ground (arith, v.slot h.command.resource, v.fenced, eq_self h.command.action_id);
  }

module _ (w : World) (now : ℕ) (error : Option String) (h : Handle) (s : Supervisor) where
  -- The supervisor with the handle's slot empty and nothing waiting for it.
  abbrev vacated : Supervisor
  vacated =
      let s' = retire w now error h s in record s' { pending = erase h.command.resource s'.pending }

  vacated-IsValid : IsReleased h.command.resource s → IsValid vacated
  unfolding retire
  vacated-IsValid v = record {
    slot = λ q. ground (
      arith,
      v.unowned,
      v.above,
      v.others q,
      resource_beq_iff q h.command.resource,
      lookup-erase q h.command.resource s.current,
      lookup-erase q h.command.resource s.pending,
    );
    fenced = ground (arith, v.fenced);
  }

  vacated-free : lookup h.command.resource vacated.current ≡ none
  unfolding retire
  vacated-free = ground (
    arith,
    lookup-erase h.command.resource h.command.resource s.current,
    resource_beq_iff h.command.resource h.command.resource,
  )

  pending-retire :
      lookup h.command.resource (retire w now error h s).pending
      ≡ lookup h.command.resource s.pending
  unfolding retire
  pending-retire = ground arith

abbrev Valid : Unit {0} → Supervisor → Type 0
Valid _ s = IsValid s

start_next-Ends :
    (w : World) (now : ℕ) (r : ControlResource) (next : Option PendingAction) (s : Supervisor)
    → IsValid s
    → lookup r s.current ≡ none
    → PendingOk r next
    → Ends Valid Never (start_next w now next s)
unfolding start_next
start_next-Ends w now r none s v free ok = v
start_next-Ends w now r (some p) s v free ok =
    let free' : lookup (resource p.action) s.current ≡ none = rw ok.0 free in
    Ends-returned IsValid Never (start w now p s) (start-returned w now p s v free' ok.1)
      (start-IsValid w now p s v free' ok.1)

finish_owned-Ends :
    (w : World) (now : ℕ) (error : Option String) (h : Handle) (s : Supervisor)
    → IsValid s
    → lookup h.command.resource s.current ≡ some h
    → Ends Valid Never (finish_owned w now error h s)
unfolding finish_owned
finish_owned-Ends w now error h s v held =
    Ends-bind (λ _. IsReleased h.command.resource) Valid Never (release w h) _ s
      (Ends-returned (IsReleased h.command.resource) Never (release w h s)
        (release-returned w h s v held) (release-IsReleased w h s v held))
      λ _ s' rel.
        Ends-bind Valid Valid Never
          (start_next w now (lookup h.command.resource (retire w now error h s').pending))
          (λ _. modify (touch now)) (vacated w now error h s')
          (start_next-Ends w now h.command.resource
            (lookup h.command.resource (retire w now error h s').pending) (vacated w now error h s')
            (vacated-IsValid w now error h s' rel) (vacated-free w now error h s')
            (rw (pending-retire w now error h s') rel.waiting))
          (λ _ s'' v'. record { slot = v'.slot; fenced = v'.fenced })

-- The end of an action, however it ended, never raises, and leaves a valid supervisor.
pub finish_handle-Ends :
    (w : World) (now : ℕ) (r : ControlResource) (ref : ℕ) (error : Option String) (s : Supervisor)
    → IsValid s
    → Ends (λ _. IsValid) Never (finish_handle w now r ref error s)
unfolding finish_handle finish_owned
finish_handle-Ends w now r ref error s v = elim (Option-cases (lookup r s.current)) [
  | inl e ↦ rw e (record { slot = v.slot; fenced = v.fenced })
  | inr (h, e) ↦ rw e (elim (Bool-cases (h.ref == ref)) [
    | inl same ↦
        rw same (finish_owned-Ends w now error h s v (cc (e, held-resource r s h (v.slot r) e)))
    | inr other ↦ rw other (record { slot = v.slot; fenced = v.fenced })
  ])
]
