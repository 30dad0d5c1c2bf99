-- ===== src/Gateway/Ownership.antt =====
-- Who owns the outputs of device_gateway.py after a lease was accepted, and after a session.
use vrc_agent.Prelude.Int.{eqb_ℤ-≡}
use vrc_agent.Prelude.{
  ℕ, String, ◌≡◌, refl, ap, ◌∙◌, true, Option, none, some, List, [], ◌∷◌, arith, nat_eq, string_eq,
  is_value_iff, eq_iff, ok,
}
use vrc_agent.Gateway.{
  Gateway, World, accepted, same_action, authorize, neutralize, apply_envelope, poll_expired,
  open_session, close_session, safe_neutralize, SinkCall, neutral_call, Context, session_closed,
}
use vrc_agent.Gateway.Calls.{Call, run, run_call}
use vrc_agent.Contracts.{SignedLease, ControlResource, at, voice_output, full_body_pose}

same_action-≡ : (a b : Option String) → same_action a b ≡ true → a ≡ b
same_action-≡ none none h = refl
same_action-≡ none (some b) h = cc
same_action-≡ (some a) none h = cc
same_action-≡ (some a) (some b) h = ap some ((eq_iff a b).0 h)

-- The resource has the lease's token and action.
abbrev pub IsHeld : SignedLease → Gateway → Type 0
IsHeld lease g =
    ((at g.resources lease.resource).lease_token ≡ lease.token)
    × ((at g.resources lease.resource).action_id ≡ lease.action_id)

pub authorize-IsHeld :
    (w : World) (clock : ℕ) (id : String) (lease : SignedLease) (g : Gateway)
    → (authorize w clock id lease g).0 ≡ accepted
    → IsHeld lease (authorize w clock id lease g).1
unfolding authorize
authorize-IsHeld w clock id lease g h =
    let state = at g.resources lease.resource in
    ground (
      arith,
      h,
      eqb_ℤ-≡ lease.token state.lease_token,
      same_action-≡ lease.action_id state.action_id,
    )

-- The calls within a session do not change it.
run_call-session : (w : World) (c : Call) (g : Gateway) → (run_call w c g).session_id ≡ g.session_id
unfolding run_call authorize neutralize apply_envelope poll_expired
run_call-session w c g = ground arith

pub run-session :
    (w : World) (cs : List Call) (g : Gateway) → (run w cs g).session_id ≡ g.session_id
unfolding run
run-session w [] g = refl
run-session w (c ∷ cs) g = run-session w cs (run_call w c g) ∙ run_call-session w c g

-- The session that `open_session` opened is open.
pub opened-session :
    (w : World) (now : ℕ) (id : String) (g : Gateway)
    → (open_session w now id g).0 ≡ ok tt
    → (open_session w now id g).1.session_id ≡ some id
unfolding open_session
opened-session w now id g h = ground (arith, h, is_value_iff id g.session_id)

-- No session is open, no output has an owner, and the last two calls of the sink were its neutrals.
pub record IsReleased (g : Gateway) : Type 0 where
  pub closed : g.session_id ≡ none
  pub voice_free : (at g.resources voice_output).action_id ≡ none
  pub body_free : (at g.resources full_body_pose).action_id ≡ none
  pub neutral :
      (older : List SinkCall) × (g.calls
        ≡ neutral_call full_body_pose ∷ neutral_call voice_output ∷ older)

safe_neutralize-calls :
    (w : World) (r : ControlResource) (c : Context) (g : Gateway)
    → (safe_neutralize w r c g).1.calls ≡ neutral_call r ∷ g.calls
unfolding safe_neutralize
safe_neutralize-calls w r c g = ground arith

both_neutral :
    (w : World) (g : Gateway)
    → (safe_neutralize w full_body_pose session_closed
        (safe_neutralize w voice_output session_closed g).1).1.calls
      ≡ neutral_call full_body_pose ∷ neutral_call voice_output ∷ g.calls
both_neutral w g =
    safe_neutralize-calls w full_body_pose session_closed
      (safe_neutralize w voice_output session_closed g).1
    ∙ ap (λ cs. neutral_call full_body_pose ∷ cs)
        (safe_neutralize-calls w voice_output session_closed g)

pub close_session-IsReleased :
    (w : World) (clock : ℕ) (id : String) (g : Gateway)
    → g.session_id ≡ some id
    → IsReleased (close_session w clock id g).1
unfolding close_session
close_session-IsReleased w clock id g open_one =
    rw ((is_value_iff id g.session_id).1 open_one) (record {
      closed = refl;
      voice_free = refl;
      body_free = refl;
      neutral = (g.calls, both_neutral w g);
    })
