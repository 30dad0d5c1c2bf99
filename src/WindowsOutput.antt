-- ===== src/WindowsOutput.antt =====
-- `WindowsOutputController` of vrc_ardy_agent/windows_output_controller.py: the bridge's output messages
-- on the device gateway.
use vrc_agent.Prelude.Int.{ℤ, pos, negsuc, pos_part, neg_part, ltb_ℤ, leb_ℤ, eqb_ℤ, ◌≤ℤ◌, ◌<ℤ◌}
use vrc_agent.Prelude.{
  ℕ, zero, suc, ◌+◌, ◌-◌, ◌*◌, ◌/◌, ◌%◌, ◌≤◌, ◌<◌, max, String, ◌≡◌, ◌≢◌, ◌↔◌, ◌⊎◌, inl, inr, refl,
  sym, ap, ◌∙◌, subst, Bool, true, false, not, ◌&&◌, ◌||◌, Option, none, some, List, [], ◌∷◌, ◌++◌,
  map, reverse, arith, Eq, nat_eq, string_eq, ◌==◌, nat_beq, ltb, leb, if◌then◌else◌, is_value,
  is_value_iff, is_none, is_empty, eq_iff, eq_self, Bool-cases, Option-cases, strip, length,
  get_elem?, All, keep_last, append_bounded, Result, ok, err, Method, returned,
}
use vrc_agent.Gateway.{
  Gateway, World, Decision, accepted, rejected, DropReason, wrong_session, wrong_lease,
  old_sequence, expired, invalid, sink_error, GatewayError, open_session, close_session, authorize,
  neutralize, apply_envelope, poll_expired,
}
use vrc_agent.Gateway.Calls.{
  Call, authorize_call, neutralize_call, envelope_call, poll_call, run, run_call,
}
use vrc_agent.Protocol.Messages.{
  Message, Ack, SessionOpen, Authorize, OutputNeutralize, Hello, OutputCompleted, AudioChunk,
  ScreenshotRequest, ScreenshotResponse, Heartbeat,
}
use vrc_agent.Contracts.{OutputEnvelope, SignedLease, ControlResource, at}
pub mod Ownership
mod Tests

-- The clock's readings in one call: for a message's reception, for its check, and for the heartbeat.
pub record Readings : Type 0 where
  pub received : ℕ
  pub now : ℕ
  pub clock : ℕ

pub data OutputError : Type 0 where
  output_rejected : ControlResource → String → ℤ → ℤ → OutputError
  unsupported_message : OutputError

-- `reason.value`
abbrev pub reason_text : DropReason → String
reason_text wrong_session = "session"
reason_text wrong_lease = "lease"
reason_text old_sequence = "sequence"
reason_text expired = "expired"
reason_text invalid = "invalid"
reason_text sink_error = "sink_error"

-- `_ack`
abbrev pub ack_of : String → Decision → Ack
ack_of id accepted = record { message_id = id; accepted = true; reason = none }
ack_of id (rejected reason) = record {
  message_id = id;
  accepted = false;
  reason = some (reason_text reason);
}

abbrev pub data_answer : OutputEnvelope → Decision → Result OutputError (Option Ack)
data_answer e accepted = ok none
data_answer e (rejected reason) =
    err (output_rejected e.resource (reason_text reason) e.lease_token e.sequence)

unfoldable pub handle : World → Readings → Message → Method Gateway OutputError (Option Ack)
handle w at_times (Message.authorize m) g =
    let (decision, g') = authorize w at_times.clock m.session_id m.lease g in
    (ok (some (ack_of m.message_id decision)), g')
handle w at_times (Message.output_neutralize m) g =
    let (decision, g') = neutralize w at_times.clock m.session_id m.resource m.lease_token g in
    (ok (some (ack_of m.message_id decision)), g')
handle w at_times (Message.output_data e) g =
    let (decision, g') = apply_envelope w at_times.clock e at_times.received at_times.now g in
    (data_answer e decision, g')
handle w at_times _ g = (err unsupported_message, g)

-- The calls that `handle` makes of the gateway.
abbrev pub calls_of : Readings → Message → List Call
calls_of at_times (Message.authorize m) = authorize_call at_times.clock m.session_id m.lease ∷ []
calls_of at_times (Message.output_neutralize m) =
    neutralize_call at_times.clock m.session_id m.resource m.lease_token ∷ []
calls_of at_times (Message.output_data e) =
    envelope_call at_times.clock e at_times.received at_times.now ∷ []
calls_of at_times _ = []
