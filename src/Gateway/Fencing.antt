-- ===== src/Gateway/Fencing.antt =====
-- What the tokens of device_gateway.py fence, within a session.
use vrc_agent.Prelude.{ℕ, String, ◌≡◌, ◌≢◌, ◌⊎◌, none, List, [], ◌∷◌, arith}
use vrc_agent.Prelude.Int.{ℤ, ◌≤ℤ◌, ◌<ℤ◌}
use vrc_agent.Contracts.{OutputEnvelope, ControlResource, at}
use vrc_agent.Gateway.{
  Gateway, World, accepted, rejected, wrong_session, wrong_lease, authorize, neutralize,
  apply_envelope, poll_expired,
}
use vrc_agent.Gateway.Calls.{
  Call, authorize_call, neutralize_call, envelope_call, poll_call, run_call, run,
}

-- No lease up to the token owns the resource.
pub record IsRevoked (r : ControlResource) (t : ℤ) (g : Gateway) : Type 0 where
  pub reached : t ≤ℤ (at g.resources r).lease_token
  pub gone : ((at g.resources r).action_id ≡ none) ⊎ (t <ℤ (at g.resources r).lease_token)

run_call-IsRevoked :
    (w : World) (c : Call) (r : ControlResource) (t : ℤ) (g : Gateway)
    → IsRevoked r t g
    → IsRevoked r t (run_call w c g)
unfolding run_call authorize neutralize apply_envelope poll_expired
run_call-IsRevoked w (authorize_call clock id lease) r t g h = ground arith
run_call-IsRevoked w (neutralize_call clock id q token) r t g h = ground arith
run_call-IsRevoked w (envelope_call clock e received now) r t g h = ground arith
run_call-IsRevoked w (poll_call clock now) r t g h = ground arith

pub run-IsRevoked :
    (w : World) (cs : List Call) (r : ControlResource) (t : ℤ) (g : Gateway)
    → IsRevoked r t g
    → IsRevoked r t (run w cs g)
unfolding run
run-IsRevoked w [] r t g h = h
run-IsRevoked w (c ∷ cs) r t g h =
    run-IsRevoked w cs r t (run_call w c g) (run_call-IsRevoked w c r t g h)

pub revoked-refuses :
    (w : World) (clock : ℕ) (e : OutputEnvelope) (received now : ℕ) (t : ℤ) (g : Gateway)
    → IsRevoked e.resource t g
    → e.lease_token ≤ℤ t
    → (apply_envelope w clock e received now g).0 ≢ accepted
unfolding apply_envelope
revoked-refuses w clock e received now t g h le = ground arith

neutralize-IsRevoked :
    (w : World) (clock : ℕ) (id : String) (r : ControlResource) (t : ℤ) (g : Gateway)
    → (neutralize w clock id r t g).0 ≢ rejected wrong_session
    → (neutralize w clock id r t g).0 ≢ rejected wrong_lease
    → IsRevoked r t (neutralize w clock id r t g).1
unfolding neutralize
neutralize-IsRevoked w clock id r t g same admitted = ground arith

-- A neutral output that is not refused for its session or its token fences the resource for the rest
-- of the session, also where the sink raised: whatever is called after, no message for the resource
-- under that token or an older one is accepted.
pub neutralize_fences :
    (w : World) (clock : ℕ) (id : String) (r : ControlResource) (t : ℤ) (g : Gateway)
    (cs : List Call) (later : ℕ) (e : OutputEnvelope) (received now : ℕ)
    → (neutralize w clock id r t g).0 ≢ rejected wrong_session
    → (neutralize w clock id r t g).0 ≢ rejected wrong_lease
    → e.resource ≡ r
    → e.lease_token ≤ℤ t
    → (apply_envelope w later e received now (run w cs (neutralize w clock id r t g).1)).0
      ≢ accepted
neutralize_fences w clock id r t g cs later e received now same admitted on le =
    revoked-refuses w later e received now t (run w cs (neutralize w clock id r t g).1)
      (rw on (
        run-IsRevoked w cs r t (neutralize w clock id r t g).1
          (neutralize-IsRevoked w clock id r t g same admitted)))
      le
