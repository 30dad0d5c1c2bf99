-- ===== src/Gateway/Calls.antt =====
-- Calls of device_gateway.py within one session: those that neither open nor close it.
use vrc_agent.Prelude.{ℕ, String, List, [], ◌∷◌}
use vrc_agent.Prelude.Int.{ℤ}
use vrc_agent.Contracts.{OutputEnvelope, SignedLease, ControlResource}
use vrc_agent.Gateway.{Gateway, World, authorize, neutralize, apply_envelope, poll_expired}

-- Each with the reading of the clock, then its arguments.
pub data Call : Type 0 where
  authorize_call : ℕ → String → SignedLease → Call
  neutralize_call : ℕ → String → ControlResource → ℤ → Call
  envelope_call : ℕ → OutputEnvelope → ℕ → ℕ → Call
  poll_call : ℕ → ℕ → Call

unfoldable pub run_call : World → Call → Gateway → Gateway
run_call w (authorize_call clock id lease) g = (authorize w clock id lease g).1
run_call w (neutralize_call clock id r token) g = (neutralize w clock id r token g).1
run_call w (envelope_call clock e received now) g = (apply_envelope w clock e received now g).1
run_call w (poll_call clock now) g = (poll_expired w clock now g).1

unfoldable pub run : World → List Call → Gateway → Gateway
run w [] g = g
run w (c ∷ cs) g = run w cs (run_call w c g)
