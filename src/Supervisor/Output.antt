-- ===== src/Supervisor/Output.antt =====
-- The steps of character_supervisor.py that touch the outputs: starting an action under a new lease,
-- and fencing and cancelling the current one.
use vrc_agent.Prelude.{
  ℕ, ◌+◌, String, Bool, true, false, Option, none, some, ◌∷◌, ◌==◌, string_eq, append_bounded,
  if◌then◌else◌, ok, err, Method, modify, gets, ◌>>=◌, ◌>>◌,
}
use vrc_agent.Prelude.Dict.{insert}
use vrc_agent.Contracts.{
  ControlResource, ActionState, preparing, stopping, completed, cancelled, failed, action_type,
  resource, ResourceLease, resource_eq, at,
}
use vrc_agent.Resources.{ResourceManager, ResourceError, acquire, invalidate}
use vrc_agent.Supervisor.State.{
  Note, authorization_failed, neutralize_failed, cancel_requested, Effect, authorize, neutralize,
  start_thread, signal_cancel, World, PendingAction, Handle, ActionSnapshot, Supervisor,
  SupervisorError, resource_error,
}

abbrev pub Sup : Type 0 → Type 0
Sup = Method Supervisor SupervisorError

-- A call of the resource manager, which may raise.
unfoldable pub on_resources : {A : Type 0} → Method ResourceManager ResourceError A → Sup A
on_resources f s =
    let (r, m) = f s.resources in
    elim r [
      | ok a ↦ (ok a, record s { resources = m })
      | err e ↦ (err (resource_error e), record s { resources = m })
    ]

unfoldable pub emit : Effect → Supervisor → Supervisor
emit e s = record s { effects = e ∷ s.effects }

unfoldable pub touch : ℕ → Supervisor → Supervisor
touch now s = record s { heartbeat = now }

unfoldable pub is_final : ActionState → Bool
is_final completed = true
is_final cancelled = true
is_final failed = true
is_final _ = false

-- `_pending_snapshot`
unfoldable pub pending_snapshot : ℕ → ActionState → Option Note → PendingAction → ActionSnapshot
unfolding is_final
pending_snapshot now state error p = record {
  action_id = p.action_id;
  turn_id = p.turn_id;
  action_type = action_type p.action;
  resource = resource p.action;
  state = state;
  lease_token = none;
  error = error;
  started = none;
  ended = if is_final state then some now else none;
}

-- `_handle_snapshot`
unfoldable pub handle_snapshot : Option ℕ → Handle → ActionSnapshot
handle_snapshot ended h = record {
  action_id = h.command.action_id;
  turn_id = h.command.turn_id;
  action_type = action_type h.command.action;
  resource = h.command.resource;
  state = h.state;
  lease_token = some h.command.lease_token;
  error = h.error;
  started = h.started;
  ended = ended;
}

-- The handle that a start makes.
abbrev pub new_handle : PendingAction → ResourceLease → ℕ → Handle
new_handle p lease ref = record {
  ref = ref;
  command = record {
    action_id = p.action_id;
    turn_id = p.turn_id;
    action = p.action;
    resource = resource p.action;
    lease_token = lease.token;
  };
  cancel_set = false;
  state = preparing;
  started = none;
  error = none;
}

-- The handle of a cancelled action.
abbrev pub cancelled_handle : Handle → String → Handle
cancelled_handle h reason = record h {
  state = stopping;
  error = if reason == "replaced" then none else some (cancel_requested reason);
  cancel_set = true;
}

module _ (w : World) where
  unfoldable pub remember : ActionSnapshot → Supervisor → Supervisor
  remember a s = record s { recent = append_bounded w.history_limit s.recent a }

  unfoldable pub log_error : Note → Supervisor → Supervisor
  log_error n s = record s { last_errors = append_bounded w.history_limit s.last_errors n }

  abbrev pub neutralize_answer : ControlResource → ℕ → Supervisor → Option String → Supervisor
  neutralize_answer r token s none = s
  neutralize_answer r token s (some exc) = log_error (neutralize_failed r token exc) s

  -- `_safe_neutralize_locked`
  unfoldable pub safe_neutralize : ControlResource → ℕ → Supervisor → Supervisor
  unfolding emit log_error
  safe_neutralize r token s =
      neutralize_answer r token (emit (neutralize r token) s)
        (w.answer s.effects (neutralize r token))

  -- `_cancel_current_locked`: fence, neutral output, and only then the cancel signal.
  unfoldable pub cancel_current : Handle → String → Sup (Unit {0})
  unfolding on_resources safe_neutralize
  cancel_current h reason = do
    let r = h.command.resource
    invalidated ← on_resources (invalidate r (some h.command.action_id))
    modify (safe_neutralize r invalidated.token)
    modify λ s.
        emit (signal_cancel h.command)
          (record s { current = insert r (cancelled_handle h reason) s.current })

  -- The output authority refused the lease: it is withdrawn and fenced, and nothing starts.
  unfoldable pub refuse_launch : ℕ → PendingAction → ResourceLease → String → Sup (Unit {0})
  unfolding on_resources safe_neutralize log_error remember
  refuse_launch now p lease exc = do
    let r = resource p.action
    on_resources (invalidate r (some p.action_id))
    modify (log_error (authorization_failed exc))
    modify (
        remember (record {
          action_id = p.action_id;
          turn_id = p.turn_id;
          action_type = action_type p.action;
          resource = r;
          state = failed;
          lease_token = some lease.token;
          error = some (authorization_failed exc);
          started = none;
          ended = some now;
        }))
    modify λ s. safe_neutralize r (at s.resources.tokens r) s

  unfoldable pub launch : ℕ → PendingAction → ResourceLease → Option String → Sup (Unit {0})
  unfolding refuse_launch
  launch now p lease none s =
      let h = new_handle p lease s.next_ref in
      (
        ok tt,
        record s {
          current = insert (resource p.action) h s.current;
          next_ref = s.next_ref + 1;
          effects = start_thread h.command ∷ s.effects;
        },
      )
  launch now p lease (some exc) s = refuse_launch now p lease exc s

  -- `_start_locked`
  unfoldable pub start : ℕ → PendingAction → Sup (Unit {0})
  unfolding on_resources launch emit
  start now p = do
    lease ← on_resources (acquire (resource p.action) p.action_id)
    failure ← gets (λ s. w.answer s.effects (authorize lease))
    modify (emit (authorize lease))
    launch now p lease failure
