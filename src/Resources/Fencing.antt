-- ===== src/Resources/Fencing.antt =====
-- What the tokens of control_resources.py promise: a lease that has died never comes back.
use vrc_agent.Prelude.{
  ◌≤◌, ◌<◌, String, ◌≡◌, ◌≢◌, ◌↔◌, true, false, Option, none, some, List, [], ◌∷◌, arith, ok,
  eq_iff, eq_self, returned,
}
use vrc_agent.Contracts.{ControlResource, ResourceLease, at}
use vrc_agent.Resources.{ResourceManager, acquire, invalidate, is_current}

-- A call that changes the manager, with what its caller passes.
pub data Call : Type 0 where
  acquire_call : ControlResource → String → Call
  invalidate_call : ControlResource → Option String → Call

-- A caller that is refused goes on from the state that the refusal left.
unfoldable pub run_call : Call → ResourceManager → ResourceManager
run_call (acquire_call r id) m = (acquire r id m).1
run_call (invalidate_call r expected) m = (invalidate r expected m).1

unfoldable pub run_calls : List Call → ResourceManager → ResourceManager
run_calls [] m = m
run_calls (c ∷ cs) m = run_calls cs (run_call c m)

-- The lease was issued by this manager, and is no longer the current one.
pub record IsDead (l : ResourceLease) (m : ResourceManager) : Type 0 where
  pub issued : l.token ≤ at m.tokens l.resource
  pub lost : is_current l m ≡ false

run_call-IsDead :
    (c : Call) (l : ResourceLease) (m : ResourceManager) → IsDead l m → IsDead l (run_call c m)
unfolding run_call acquire invalidate is_current
run_call-IsDead (acquire_call r id) l m d = ground arith
run_call-IsDead (invalidate_call r expected) l m d = ground arith

-- Once a lease is no longer current it stays so, whatever is called after.
pub run_calls-IsDead :
    (cs : List Call) (l : ResourceLease) (m : ResourceManager)
    → IsDead l m
    → IsDead l (run_calls cs m)
unfolding run_calls
run_calls-IsDead [] l m d = d
run_calls-IsDead (c ∷ cs) l m d = run_calls-IsDead cs l (run_call c m) (run_call-IsDead c l m d)

-- A call gets a lease exactly when its action id is not empty and nothing owns the resource.
pub acquire-ok_iff :
    (r : ControlResource) (id : String) (m : ResourceManager)
    → (returned (acquire r id m).0 ≡ true) ↔ ((id ≢ "") × (at m.owners r ≡ none))
unfolding acquire
acquire-ok_iff r id m = ground (arith, eq_iff id "")

-- The lease of a successful acquire is current and newer than every one before it; once its own action
-- invalidates it, the resource has no owner, and the lease has been issued and is no longer current.
pub invalidate-acquire :
    (r : ControlResource) (id : String) (m : ResourceManager) {m' : ResourceManager}
    {l : ResourceLease}
    → acquire r id m ≡ (ok l, m')
    → (is_current l m' ≡ true)
      × (at m.tokens r < l.token)
      × IsDead l (invalidate r (some id) m').1
      × (at (invalidate r (some id) m').1.owners r ≡ none)
unfolding acquire invalidate is_current
invalidate-acquire r id m e = ground (arith, eq_self id)
