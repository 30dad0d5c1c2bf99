-- ===== src/Resources.antt =====
-- `ControlResourceManager` of vrc_ardy_agent/control_resources.py: one owner and one fencing token
-- for each resource. The lock makes each method one step.
pub mod Fencing
mod Tests
use vrc_agent.Prelude.{
  ℕ, ◌+◌, String, Bool, true, false, Option, none, some, ◌&&◌, not, Eq, ◌==◌, nat_eq, string_eq,
  is_value, is_none, is_empty, if◌then◌else◌, Method, Result, pure, raise, raise_if, ◌>>=◌, ◌>>◌,
  ok, err,
}
use vrc_agent.Contracts.{ControlResource, ResourceLease, PerResource, both, at, put}

pub record ResourceManager : Type 0 where
  pub tokens : PerResource ℕ
  pub owners : PerResource (Option String)

pub data ResourceError : Type 0 where
  -- `ValueError`
  empty_action_id : ResourceError
  -- `ResourceBusyError`
  busy : ControlResource → String → ResourceError
  -- `ResourceOwnershipError`
  ownership : ControlResource → Option String → ResourceError

abbrev pub init : ResourceManager
init = record { tokens = both 0; owners = both none }

-- `owner == expected`, where the expectation may be left out.
abbrev pub expected_owner : Option String → Option String → Bool
expected_owner none owner = true
expected_owner (some action_id) owner = is_value action_id owner

abbrev grant :
    ControlResource
    → String
    → ResourceManager
    → Option String
    → Result ResourceError ResourceLease × ResourceManager
grant r action_id m (some owner) = (err (busy r owner), m)
grant r action_id m none =
    let token = at m.tokens r + 1 in
    (
      ok (record { resource = r; token = token; action_id = some action_id }),
      record { tokens = put m.tokens r token; owners = put m.owners r (some action_id) },
    )

unfoldable pub acquire :
    ControlResource → String → Method ResourceManager ResourceError ResourceLease
acquire r action_id m =
    if is_empty action_id then (err empty_action_id, m) else grant r action_id m (at m.owners r)

-- The state after `invalidate` was let through.
abbrev pub revoke : ControlResource → ResourceManager → Option String → ResourceManager
revoke r m none = m
revoke r m (some owner) = record {
  tokens = put m.tokens r (at m.tokens r + 1);
  owners = put m.owners r none;
}

unfoldable pub invalidate :
    ControlResource → Option String → Method ResourceManager ResourceError ResourceLease
invalidate r expected m =
    let owner = at m.owners r in
    let m' = revoke r m owner in
    if expected_owner expected owner
    then (ok (record { resource = r; token = at m'.tokens r; action_id = none }), m')
    else (err (ownership r owner), m)

unfoldable pub current : ControlResource → ResourceManager → ResourceLease
current r m = record { resource = r; token = at m.tokens r; action_id = at m.owners r }

-- The owner equals the lease's action, which is one.
abbrev owned_by : Option String → Option String → Bool
owned_by owner none = false
owned_by owner (some action_id) = is_value action_id owner

unfoldable pub is_current : ResourceLease → ResourceManager → Bool
is_current l m = at m.tokens l.resource == l.token && owned_by (at m.owners l.resource) l.action_id
