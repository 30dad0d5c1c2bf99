-- ===== src/Gateway/Ordering.antt =====
-- The order in which device_gateway.py lets messages through, within a session.
use vrc_agent.Prelude.{ℕ, ◌≡◌, ◌⊎◌, List, [], ◌∷◌, arith}
use vrc_agent.Prelude.Int.{ℤ, ◌≤ℤ◌, ◌<ℤ◌}
use vrc_agent.Contracts.{OutputEnvelope, ControlResource, at}
use vrc_agent.Gateway.{
  Gateway, World, accepted, authorize, neutralize, apply_envelope, poll_expired,
}
use vrc_agent.Gateway.Calls.{
  Call, authorize_call, neutralize_call, envelope_call, poll_call, run_call, run,
}

-- The later pair of token and sequence comes after the earlier one, by the token first.
abbrev pub Before : ℤ → ℤ → ℤ → ℤ → Type 0
Before t s t' s' = (t <ℤ t') ⊎ ((t ≤ℤ t') × (s <ℤ s'))

-- The resource has passed the token and the sequence.
record HasPassed (r : ControlResource) (t s : ℤ) (g : Gateway) : Type 0 where
  reached : t ≤ℤ (at g.resources r).lease_token
  counted : (t <ℤ (at g.resources r).lease_token) ⊎ (s ≤ℤ (at g.resources r).last_sequence)

run_call-HasPassed :
    (w : World) (c : Call) (r : ControlResource) (t s : ℤ) (g : Gateway)
    → HasPassed r t s g
    → HasPassed r t s (run_call w c g)
unfolding run_call authorize neutralize apply_envelope poll_expired
run_call-HasPassed w (authorize_call clock id lease) r t s g h = ground arith
run_call-HasPassed w (neutralize_call clock id q token) r t s g h = ground arith
run_call-HasPassed w (envelope_call clock e received now) r t s g h = ground arith
run_call-HasPassed w (poll_call clock now) r t s g h = ground arith

run-HasPassed :
    (w : World) (cs : List Call) (r : ControlResource) (t s : ℤ) (g : Gateway)
    → HasPassed r t s g
    → HasPassed r t s (run w cs g)
unfolding run
run-HasPassed w [] r t s g h = h
run-HasPassed w (c ∷ cs) r t s g h =
    run-HasPassed w cs r t s (run_call w c g) (run_call-HasPassed w c r t s g h)

module _ (w : World) (clock : ℕ) (e : OutputEnvelope) (received now : ℕ) (g : Gateway) where
  accepted-HasPassed :
      (apply_envelope w clock e received now g).0 ≡ accepted
      → HasPassed e.resource e.lease_token e.sequence (apply_envelope w clock e received now g).1
  unfolding apply_envelope
  accepted-HasPassed h = ground arith

  accepted-Before :
      (t s : ℤ)
      → HasPassed e.resource t s g
      → (apply_envelope w clock e received now g).0 ≡ accepted
      → Before t s e.lease_token e.sequence
  unfolding apply_envelope
  accepted-Before t s p h = ground arith

-- Within a session, two messages that are accepted for a resource, with any calls between them, come
-- in order: the later one has a newer token, or no older token and a greater sequence. So no message
-- is accepted twice, and none overtakes a newer one.
pub accepted_in_order :
    (w : World) (clock later : ℕ) (e e' : OutputEnvelope) (received now received' now' : ℕ)
    (g : Gateway) (cs : List Call)
    → (apply_envelope w clock e received now g).0 ≡ accepted
    → e'.resource ≡ e.resource
    → (apply_envelope w later e' received' now'
        (run w cs (apply_envelope w clock e received now g).1)).0
      ≡ accepted
    → Before e.lease_token e.sequence e'.lease_token e'.sequence
accepted_in_order w clock later e e' received now received' now' g cs first same second =
    accepted-Before w later e' received' now' (run w cs (apply_envelope w clock e received now g).1)
      e.lease_token e.sequence
      (rw same (
        run-HasPassed w cs e.resource e.lease_token e.sequence
          (apply_envelope w clock e received now g).1
          (accepted-HasPassed w clock e received now g first)))
      second
