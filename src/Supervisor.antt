-- ===== src/Supervisor.antt =====
-- `CharacterSupervisor` of vrc_ardy_agent/character_supervisor.py: the life of an action from its
-- request to its end, preemption, and the fencing of what it may write. Each method runs under the
-- supervisor's lock, so it is one step; the executor's thread calls `mark_running` and
-- `finish_handle`.
mod State
mod Query
pub mod Planned
mod Tests
pub mod Runs
pub mod Invariant
pub mod Output
pub use State.*
pub use Output.{Sup}
use Output.{
  is_final, on_resources, emit, touch, pending_snapshot, handle_snapshot, remember, log_error,
  safe_neutralize, cancel_current, start,
}
use vrc_agent.Prelude.{
  ℕ, ◌+◌, ◌≤◌, String, Bool, true, false, Option, none, some, List, [], ◌∷◌, ◌++◌, map, ◌&&◌, ◌||◌,
  not, Eq, ◌==◌, nat_eq, string_eq, is_empty, is_value, is_none, ltb, leb, length, append_bounded,
  strip, if◌then◌else◌, Result, ok, err, Method, pure, raise, raise_if, raise_some, modify, gets,
  ◌>>=◌, ◌>>◌,
}
use vrc_agent.Prelude.Dict.{Dict, lookup, insert, erase}
use vrc_agent.Contracts.{
  ActionType, say, ardy_motion, motion, ControlResource, voice_output, full_body_pose, ActionState,
  preparing, running, stopping, completed, cancelled, failed, Action, action_type, resource,
  ActionBundle, ResourceLease, ExecutionCommand, resource_beq, resource_eq, state_beq, at,
}
use vrc_agent.Resources
use vrc_agent.Resources.{invalidate}

abbrev pub is_nil {ℓ} : {A : Type ℓ} → List A → Bool
is_nil [] = true
is_nil (x ∷ xs) = false

contains : ControlResource → List ControlResource → Bool
contains r [] = false
contains r (q ∷ rest) = resource_beq r q || contains r rest

has_duplicates : List ControlResource → Bool
unfolding contains
has_duplicates [] = false
has_duplicates (r ∷ rest) = contains r rest || has_duplicates rest

module _ (w : World) where
  -- `_record_superseded_pending_locked`
  record_superseded : ℕ → PendingAction → Supervisor → Supervisor
  unfolding remember
  record_superseded now p =
      remember w (pending_snapshot now cancelled (some superseded_before_start) p)

  -- The action waits, in place of the one that waited before.
  enqueue : ℕ → PendingAction → Supervisor → Option PendingAction → Supervisor
  unfolding record_superseded
  enqueue now p s none = record s { pending = insert (resource p.action) p s.pending }
  enqueue now p s (some previous) =
      let s' = record_superseded now previous s in
      record s' { pending = insert (resource p.action) p s'.pending }

  -- `_schedule_locked`, by the resource's current handle and its pending action.
  pub schedule_on : ℕ → PendingAction → Option PendingAction → Option Handle → Sup (Unit {0})
  unfolding record_superseded enqueue
  schedule_on now p none none = start w now p
  schedule_on now p (some previous) none = do
    modify λ s. record s { pending = erase (resource p.action) s.pending }
    modify (record_superseded now previous)
    start w now p
  schedule_on now p previous (some h) = do
    modify λ s. enqueue now p s previous
    if state_beq h.state stopping then pure tt else cancel_current w h "replaced"

  pub schedule : ℕ → PendingAction → Sup (Unit {0})
  schedule now p s =
      let r = resource p.action in schedule_on now p (lookup r s.pending) (lookup r s.current) s

  schedule_all : ℕ → List PendingAction → Sup (Unit {0})
  schedule_all now [] = pure tt
  schedule_all now (p ∷ ps) = do schedule now p; schedule_all now ps

  -- The ids of a bundle's actions, drawn one by one before any is scheduled.
  draw : ℕ → String → List Action → Sup (List PendingAction)
  draw now turn_id [] = pure []
  draw now turn_id (a ∷ rest) = do
    action_id ← gets (λ s. w.new_id s.drawn)
    modify λ s. record s { drawn = s.drawn + 1 }
    raise_if (is_empty action_id) bad_action_id
    others ← draw now turn_id rest
    pure (record { action_id = action_id; turn_id = turn_id; action = a; requested = now } ∷ others)

  unmanaged : List Action → List ActionType
  unmanaged [] = []
  unmanaged (a ∷ rest) =
      let others = unmanaged rest in
      if w.managed (action_type a) then others else action_type a ∷ others

  -- The first check of `apply_bundle` that fails.
  pub bundle_error : List Action → String → Option SupervisorError
  unfolding unmanaged has_duplicates
  bundle_error actions turn_id =
      if is_empty turn_id
      then some empty_turn_id
      else if not (leb 1 (length actions) && leb (length actions) 2)
      then some bad_bundle_length
      else if not (is_nil (unmanaged actions))
      then some (not_managed (unmanaged actions))
      else if has_duplicates (map resource actions)
      then some duplicate_resources
      else none

  -- What `apply_bundle` does under the lock.
  commit : ℕ → List PendingAction → Sup (List String)
  unfolding schedule_all touch
  commit now drawn = do
    schedule_all now drawn
    modify (touch now)
    pure (map (λ p. p.action_id) drawn)

  pub apply_bundle : ℕ → ActionBundle → String → Sup (List String)
  unfolding bundle_error draw commit
  apply_bundle now bundle turn_id = do
    raise_some (bundle_error bundle.actions turn_id)
    drawn ← draw now turn_id bundle.actions
    commit now drawn

  -- The pending actions that `halt_all` drops, in the dict's order.
  cancel_pending : ℕ → String → Dict ControlResource PendingAction → Supervisor → Supervisor
  unfolding remember
  cancel_pending now reason [] s = s
  cancel_pending now reason ((r, p) ∷ rest) s =
      let s' =
        remember w (pending_snapshot now cancelled (some (cancelled_before_start reason)) p) s in
      cancel_pending now reason rest (record s' { pending = erase r s'.pending })

  halt_resource : String → ControlResource → Option Handle → Sup (Unit {0})
  unfolding safe_neutralize
  halt_resource reason r none =
      modify λ s. safe_neutralize w r (Resources.current r s.resources).token s
  halt_resource reason r (some h) =
      if state_beq h.state stopping then pure tt else cancel_current w h reason

  halt_resources : String → List ControlResource → Sup (Unit {0})
  unfolding halt_resource
  halt_resources reason [] = pure tt
  halt_resources reason (r ∷ rest) = do
    handle ← gets (λ s. lookup r s.current)
    halt_resource reason r handle
    halt_resources reason rest

  -- `_managed_resources`, in the order of their values.
  pub managed_resources : List ControlResource
  managed_resources =
      let voice = if w.managed say then voice_output ∷ [] else [] in
      if w.managed ardy_motion || w.managed motion then full_body_pose ∷ voice else voice

  -- The result of `halt_all`, read from the state that it leaves.
  halt_result : String → Sup HaltResult
  unfolding managed_resources
  halt_result why = gets λ s. record {
    reason = why;
    resource_tokens = map (λ r. (r, (Resources.current r s.resources).token)) managed_resources;
  }

  -- What `halt_all` does under the lock.
  halt_locked : ℕ → String → Sup HaltResult
  unfolding cancel_pending halt_resources halt_result managed_resources touch
  halt_locked now why = do
    modify λ s. cancel_pending now why s.pending s
    halt_resources why managed_resources
    modify (touch now)
    halt_result why

  pub halt_all : ℕ → String → Sup HaltResult
  unfolding halt_locked
  halt_all now reason = do
    let why = strip reason
    raise_if (is_empty why) empty_reason
    halt_locked now why

  -- `_mark_running`, by the object that the resource's slot holds.
  mark_handle : ℕ → ℕ → Supervisor → Option Handle → Supervisor
  unfolding touch
  mark_handle now ref s none = s
  mark_handle now ref s (some h) =
      if not (h.ref == ref) || not (state_beq h.state preparing) || h.cancel_set
      then s
      else touch now (record s {
        current =
            insert h.command.resource (record h { state = running; started = some now }) s.current;
      })

  pub mark_running : ℕ → ControlResource → ℕ → Supervisor → Supervisor
  unfolding mark_handle
  mark_running now r ref s = mark_handle now ref s (lookup r s.current)

  -- The fencing of an action that ends by itself.
  release : Handle → Sup (Unit {0})
  unfolding on_resources safe_neutralize
  release h = if state_beq h.state stopping then pure tt else do
    invalidated ← on_resources (invalidate h.command.resource (some h.command.action_id))
    modify (safe_neutralize w h.command.resource invalidated.token)

  -- How the executor's `run` ended, written on the handle.
  settle : Option String → Handle → Handle
  settle (some exc) h = record h {
    state = failed;
    error = some (execution_failed h.command.action_id exc);
  }
  settle none h = record h { state = if h.cancel_set then cancelled else completed }

  log_failure : Supervisor → Handle → Option String → Supervisor
  unfolding log_error
  log_failure s h none = s
  log_failure s h (some exc) = log_error w (execution_failed h.command.action_id exc) s

  start_next : ℕ → Option PendingAction → Sup (Unit {0})
  start_next now none = pure tt
  start_next now (some p) = start w now p

  -- The handle leaves its slot, with its end recorded.
  retire : ℕ → Option String → Handle → Supervisor → Supervisor
  unfolding settle log_failure remember emit
  retire now error h s =
      let s' = remember w (handle_snapshot (some now) (settle error h)) (log_failure s h error) in
      emit (done h.ref) (record s' { current = erase h.command.resource s'.current })

  finish_owned : ℕ → Option String → Handle → Sup (Unit {0})
  unfolding release retire touch start_next
  finish_owned now error h = do
    let r = h.command.resource
    release h
    modify (retire now error h)
    next ← gets (λ s. lookup r s.pending)
    modify λ s. record s { pending = erase r s.pending }
    start_next now next
    modify (touch now)

  finish_on : ℕ → ℕ → Option String → Option Handle → Sup (Unit {0})
  unfolding finish_owned emit
  finish_on now ref error none = modify (emit (done ref))
  finish_on now ref error (some h) =
      if h.ref == ref then finish_owned now error h else modify (emit (done ref))

  -- `_finish_handle`
  pub finish_handle : ℕ → ControlResource → ℕ → Option String → Sup (Unit {0})
  unfolding finish_on
  finish_handle now r ref error s = finish_on now ref error (lookup r s.current) s
