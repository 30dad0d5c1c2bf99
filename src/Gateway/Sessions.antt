-- ===== src/Gateway/Sessions.antt =====
-- Who may hold the session of device_gateway.py.
use vrc_agent.Prelude.{is_empty, refl, if◌then◌else◌}
use vrc_agent.Gateway.State.{calibration_owns, empty_session_id, already_connected}
use vrc_agent.Prelude.{
  string_eq, is_value, ◌&&◌, is_none, inl, not, err, ok, is_value_iff, ℕ, String, ◌≡◌, ◌≢◌, ◌⊎◌,
  Option, none, some, List, [], ◌∷◌, arith, eq_iff,
}
use vrc_agent.Gateway.{
  owned_by_other, Gateway, World, open_session, claim_exclusive_session, release_exclusive_session,
  close_session, authorize, neutralize, apply_envelope, poll_expired, init,
}
use vrc_agent.Gateway.Calls.{
  poll_call, envelope_call, neutralize_call, authorize_call, Call, run_call,
}

-- Any call, also those that change the session.
pub data SessionCall : Type 0 where
  open_call claim_call release_call close_call : ℕ → String → SessionCall
  within_call : Call → SessionCall

unfoldable pub run_session_call : World → SessionCall → Gateway → Gateway
run_session_call w (open_call clock id) g = (open_session w clock id g).1
run_session_call w (claim_call clock id) g = (claim_exclusive_session w clock id g).1
run_session_call w (release_call clock id) g = (release_exclusive_session w clock id g).1
run_session_call w (close_call clock id) g = (close_session w clock id g).1
run_session_call w (within_call c) g = run_call w c g

unfoldable pub run_session : World → List SessionCall → Gateway → Gateway
run_session w [] g = g
run_session w (c ∷ cs) g = run_session w cs (run_session_call w c g)

-- A claim belongs to the session that is open; with none open, no resource has an owner.
pub record IsOwned (g : Gateway) : Type 0 where
  pub claim :
      (g.exclusive_session ≡ none)
      ⊎ ((g.exclusive_session ≡ g.session_id) × (g.session_id ≢ none) × (g.session_id ≢ some ""))

within-session :
    (w : World) (c : Call) (g : Gateway)
    → ((run_call w c g).session_id ≡ g.session_id)
      × ((run_call w c g).exclusive_session ≡ g.exclusive_session)
unfolding run_call authorize neutralize apply_envelope poll_expired
within-session w (authorize_call clock id lease) g = ground arith
within-session w (neutralize_call clock id q token) g = ground arith
within-session w (envelope_call clock e received now) g = ground arith
within-session w (poll_call clock now) g = ground arith

owned_by_other_lem :
    (w : World) (id : String) (o : Option String)
    → o ≢ some ""
    → owned_by_other w id o ≡ (not (is_none o) && not (is_value id o))
unfolding owned_by_other
owned_by_other_lem w id none h = refl
owned_by_other_lem w id (some owner) h = ground (arith, eq_iff owner "")

run_session_call-IsOwned :
    (w : World) (c : SessionCall) (g : Gateway) → IsOwned g → IsOwned (run_session_call w c g)
unfolding run_session_call open_session claim_exclusive_session release_exclusive_session
    close_session
run_session_call-IsOwned w (open_call clock id) g h = ground (
  arith,
  eq_iff id "",
  is_value_iff id g.session_id,
  is_value_iff id g.exclusive_session,
  owned_by_other_lem w id g.exclusive_session,
)
run_session_call-IsOwned w (claim_call clock id) g h = ground (
  arith,
  eq_iff id "",
  is_value_iff id g.session_id,
  is_value_iff id g.exclusive_session,
  owned_by_other_lem w id g.exclusive_session,
)
run_session_call-IsOwned w (release_call clock id) g h = ground arith
run_session_call-IsOwned w (close_call clock id) g h = ground arith
run_session_call-IsOwned w (within_call c) g h = ground (arith, within-session w c g)

run_session-IsOwned :
    (w : World) (cs : List SessionCall) (g : Gateway) → IsOwned g → IsOwned (run_session w cs g)
unfolding run_session
run_session-IsOwned w [] g h = h
run_session-IsOwned w (c ∷ cs) g h =
    run_session-IsOwned w cs (run_session_call w c g) (run_session_call-IsOwned w c g h)

module _ (w : World) (clock : ℕ) (id : String) (g : Gateway) (owned : IsOwned g)
    (held : g.exclusive_session ≢ none) where
  open-claimed : open_session w clock id g ≡ (
      if is_empty id
      then (err empty_session_id, g)
      else if is_value id g.session_id
      then (ok tt, record g { heartbeat = clock })
      else (err calibration_owns, g))
  unfolding open_session
  open-claimed = ground (
    arith,
    owned,
    is_value_iff id g.session_id,
    is_value_iff id g.exclusive_session,
    owned_by_other_lem w id g.exclusive_session,
  )

  claim-claimed : claim_exclusive_session w clock id g ≡ (err already_connected, g)
  unfolding claim_exclusive_session
  claim-claimed = ground (arith, owned)

-- Whatever was called from the start: while a calibration holds the gateway, it holds the session
-- that is open, every claim is refused, and opening a session is refused for any other session, while
-- for that one it changes nothing but the heartbeat.
pub claim_is_exclusive :
    (w : World) (start : ℕ) (cs : List SessionCall) (clock : ℕ) (id : String)
    → let g = run_session w cs (init start) in
      g.exclusive_session ≢ none
      → (g.exclusive_session ≡ g.session_id)
        × (claim_exclusive_session w clock id g ≡ (err already_connected, g))
        × (open_session w clock id g ≡ (
            if is_empty id
            then (err empty_session_id, g)
            else if is_value id g.session_id
            then (ok tt, record g { heartbeat = clock })
            else (err calibration_owns, g)))
claim_is_exclusive w start cs clock id held =
    let g = run_session w cs (init start) in
    let owned = run_session-IsOwned w cs (init start) (record { claim = inl refl }) in
    (
      ground (arith, owned),
      claim-claimed w clock id g owned held,
      open-claimed w clock id g owned held,
    )
