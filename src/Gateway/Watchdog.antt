-- ===== src/Gateway/Watchdog.antt =====
-- The watchdog of device_gateway.py.
use vrc_agent.Prelude.{if◌then◌else◌}
use vrc_agent.Prelude.{
  ◌||◌, ℕ, ◌≤◌, String, ◌≡◌, ◌≢◌, ◌↔◌, Bool, true, false, Option, none, some, List, [], ◌∷◌, arith,
}
use vrc_agent.Prelude.Int.{◌≤ℤ◌}
use vrc_agent.Contracts.{OutputEnvelope, resource_beq, ControlResource, at}
use vrc_agent.Gateway.{Gateway, World, apply_envelope, poll_expired, accepted}
use vrc_agent.Gateway.Calls.{Call, run}
use vrc_agent.Gateway.Fencing.{IsRevoked, run-IsRevoked, revoked-refuses}

-- The resource has an owner whose last message has run out.
abbrev pub HasExpired : ℕ → Option String → Option ℕ → Type 0
HasExpired now (some owner) (some t) = t ≤ now
HasExpired now _ _ = ⊥

abbrev pub contains : ControlResource → List ControlResource → Bool
contains r [] = false
contains r (q ∷ rest) = resource_beq r q || contains r rest

module _ (w : World) (clock now : ℕ) (r : ControlResource) (g : Gateway) where
  poll-reports :
      (contains r (poll_expired w clock now g).0 ≡ true)
      ↔ HasExpired now (at g.resources r).action_id (at g.resources r).expires
  unfolding poll_expired
  poll-reports = ground arith

  poll-resources : at (poll_expired w clock now g).1.resources r ≡ (
      if contains r (poll_expired w clock now g).0
      then record (at g.resources r) { action_id = none; expires = none }
      else at g.resources r)
  unfolding poll_expired
  poll-resources = ground arith

  poll-IsRevoked :
      contains r (poll_expired w clock now g).0 ≡ true
      → IsRevoked r (at g.resources r).lease_token (poll_expired w clock now g).1
  unfolding poll_expired
  poll-IsRevoked h = ground arith

-- A poll reports exactly the resources whose owner's last message has run out; these lose their owner
-- and deadline and keep their token and sequence, and the state of every other resource stays as it
-- was.
pub poll_expired_lem :
    (w : World) (clock now : ℕ) (r : ControlResource) (g : Gateway)
    → let (reported, g') = poll_expired w clock now g in
      ((contains r reported ≡ true)
        ↔ HasExpired now (at g.resources r).action_id (at g.resources r).expires)
      × (at g'.resources r ≡ (
          if contains r reported
          then record (at g.resources r) { action_id = none; expires = none }
          else at g.resources r))
poll_expired_lem w clock now r g = (poll-reports w clock now r g, poll-resources w clock now r g)

-- Once the watchdog has reported a resource, no message under the lease that it revoked, or an older
-- one, is accepted for the rest of the session, whatever is called between.
pub watchdog_fences :
    (w : World) (clock now : ℕ) (g : Gateway) (cs : List Call) (later : ℕ) (e : OutputEnvelope)
    (received sent : ℕ)
    → contains e.resource (poll_expired w clock now g).0 ≡ true
    → e.lease_token ≤ℤ (at g.resources e.resource).lease_token
    → (apply_envelope w later e received sent (run w cs (poll_expired w clock now g).1)).0
      ≢ accepted
watchdog_fences w clock now g cs later e received sent reported le =
    revoked-refuses w later e received sent (at g.resources e.resource).lease_token
      (run w cs (poll_expired w clock now g).1)
      (run-IsRevoked w cs e.resource (at g.resources e.resource).lease_token
        (poll_expired w clock now g).1 (poll-IsRevoked w clock now e.resource g reported))
      le
