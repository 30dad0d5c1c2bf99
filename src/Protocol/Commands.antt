-- ===== src/Protocol/Commands.antt =====
-- What stream_protocol.py lets through when it reads a command or an acknowledgement.
use vrc_agent.Prelude.Dict.{Dict}
use vrc_agent.Protocol.Decode.{
  mapping, boolean_from, decode_ack, decode_output_data, decode_session_open,
  decode_output_neutralize, decode_authorize, item, exact, decode_hello,
}
use vrc_agent.Protocol.Checks.{identifier, optional_text, positive, nonnegative, resource_from}
use vrc_agent.Json.{Value}
use vrc_agent.Prelude.{String, [], ◌∷◌, nat_eq, string_eq}
use vrc_agent.Protocol.Sound.{
  Sound, read, read_on, identifier-IsIdentifier, optional_text-IsText, positive-<ℤ, nonnegative-≤ℤ,
}

pub hello-Sound : (root : Dict String Value) → Sound (decode_hello root)
unfolding decode_hello
hello-Sound root = read_on (exact ("client_instance_id" ∷ []) root) _ λ _.
    read (identifier "client_instance_id" (item "client_instance_id" root)) _
      λ client_instance_id client_instance_id_ok.
        identifier-IsIdentifier "client_instance_id" (item "client_instance_id" root)
          client_instance_id client_instance_id_ok

pub session_open-Sound : (root : Dict String Value) → Sound (decode_session_open root)
unfolding decode_session_open
session_open-Sound root = read_on (exact ("session_id" ∷ []) root) _ λ _.
    read (identifier "session_id" (item "session_id" root)) _ λ session_id session_id_ok.
      identifier-IsIdentifier "session_id" (item "session_id" root) session_id session_id_ok

pub authorize-Sound : (root : Dict String Value) → Sound (decode_authorize root)
unfolding decode_authorize
authorize-Sound root =
    read_on
      (exact ("message_id" ∷ "session_id" ∷ "resource" ∷ "lease_token" ∷ "action_id" ∷ []) root) _
      λ _. read (identifier "message_id" (item "message_id" root)) _ λ message_id message_id_ok.
        read (identifier "session_id" (item "session_id" root)) _ λ session_id session_id_ok.
          read_on (resource_from (item "resource" root)) _ λ _.
            read (positive "lease_token" (item "lease_token" root)) _ λ lease_token lease_token_ok.
              read (identifier "action_id" (item "action_id" root)) _ λ action_id action_id_ok. (
                identifier-IsIdentifier "message_id" (item "message_id" root) message_id
                    message_id_ok,
                identifier-IsIdentifier "session_id" (item "session_id" root) session_id
                    session_id_ok,
                positive-<ℤ "lease_token" (item "lease_token" root) lease_token lease_token_ok,
                identifier-IsIdentifier "action_id" (item "action_id" root) action_id action_id_ok,
              )

pub output_neutralize-Sound : (root : Dict String Value) → Sound (decode_output_neutralize root)
unfolding decode_output_neutralize
output_neutralize-Sound root =
    read_on (exact ("message_id" ∷ "session_id" ∷ "resource" ∷ "lease_token" ∷ []) root) _ λ _.
      read (identifier "message_id" (item "message_id" root)) _ λ message_id message_id_ok.
        read (identifier "session_id" (item "session_id" root)) _ λ session_id session_id_ok.
          read_on (resource_from (item "resource" root)) _ λ _.
            read (nonnegative "lease_token" (item "lease_token" root)) _
              λ lease_token lease_token_ok. (
                identifier-IsIdentifier "message_id" (item "message_id" root) message_id
                    message_id_ok,
                identifier-IsIdentifier "session_id" (item "session_id" root) session_id
                    session_id_ok,
                nonnegative-≤ℤ "lease_token" (item "lease_token" root) lease_token lease_token_ok,
              )

pub output_data-Sound : (root : Dict String Value) → Sound (decode_output_data root)
unfolding decode_output_data
output_data-Sound root =
    read_on
      (exact
        ("session_id" ∷ "action_id" ∷ "resource" ∷ "lease_token" ∷ "sequence" ∷ "ttl_ms" ∷ "payload"
          ∷ [])
        root)
      _
      λ _. read (identifier "session_id" (item "session_id" root)) _ λ session_id session_id_ok.
        read (identifier "action_id" (item "action_id" root)) _ λ action_id action_id_ok.
          read_on (resource_from (item "resource" root)) _ λ _.
            read (positive "lease_token" (item "lease_token" root)) _ λ lease_token lease_token_ok.
              read (nonnegative "sequence" (item "sequence" root)) _ λ sequence sequence_ok.
                read (positive "ttl_ms" (item "ttl_ms" root)) _ λ ttl_ms ttl_ms_ok.
                  read_on (mapping (item "payload" root)) _ λ _. (
                    identifier-IsIdentifier "session_id" (item "session_id" root) session_id
                        session_id_ok,
                    identifier-IsIdentifier "action_id" (item "action_id" root) action_id
                        action_id_ok,
                    positive-<ℤ "lease_token" (item "lease_token" root) lease_token lease_token_ok,
                    nonnegative-≤ℤ "sequence" (item "sequence" root) sequence sequence_ok,
                    positive-<ℤ "ttl_ms" (item "ttl_ms" root) ttl_ms ttl_ms_ok,
                  )

pub ack-Sound : (root : Dict String Value) → Sound (decode_ack root)
unfolding decode_ack
ack-Sound root = read_on (exact ("message_id" ∷ "accepted" ∷ "reason" ∷ []) root) _ λ _.
    read_on (boolean_from (item "accepted" root)) _ λ _.
      read (identifier "message_id" (item "message_id" root)) _ λ message_id message_id_ok.
        read (optional_text "reason" (item "reason" root)) _ λ reason reason_ok. (
          identifier-IsIdentifier "message_id" (item "message_id" root) message_id message_id_ok,
          optional_text-IsText "reason" (item "reason" root) reason reason_ok,
        )
