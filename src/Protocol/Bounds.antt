-- ===== src/Protocol/Bounds.antt =====
-- What stream_protocol.py lets through when it reads a message.
use vrc_agent.Protocol.Encode.{protocol_version, max_message_bytes}
use vrc_agent.Prelude.Dict.{Dict}
use vrc_agent.Protocol.Decode.{
  equals_text, equals_number, check, mapping, decode_screenshot_request, decode_message,
  decode_root, decode_screenshot_response, decode_typed, decode_heartbeat, decode_audio_chunk,
  decode_output_completed, Raw, item, exact, jpeg_from,
}
use vrc_agent.Protocol.Messages.{
  Message, bad_audio_format, bad_version, too_large, not_utf8, not_json,
}
use vrc_agent.Protocol.Checks.{
  identifier, optional_text, plain_integer, positive, nonnegative, resource_from, completion_state,
  heartbeat_sender, failure_has_error, from_base64, audio_pcm,
}
use vrc_agent.Json.{fields, Value, null, boolean, integer, real, text, array, object}
use vrc_agent.Prelude.Int.{pos, eqb_ℤ}
use vrc_agent.Prelude.{
  String, ◌≡◌, inl, inr, subst, not, none, some, [], ◌∷◌, nat_eq, string_eq, ◌==◌, ltb, Bool-cases,
  ok, err,
}
use vrc_agent.Protocol.Sound.{
  IsSound, Sound, read, read_on, identifier-IsIdentifier, optional_text-IsText, positive-<ℤ,
  nonnegative-≤ℤ, audio_pcm-bounds, jpeg_from-IsPicture, sender-known, failed-has-error,
}
use vrc_agent.Protocol.Commands.{
  hello-Sound, session_open-Sound, authorize-Sound, output_neutralize-Sound, output_data-Sound,
  ack-Sound,
}

output_completed-Sound : (root : Dict String Value) → Sound (decode_output_completed root)
unfolding decode_output_completed
output_completed-Sound root =
    read_on
      (exact ("session_id" ∷ "action_id" ∷ "resource" ∷ "lease_token" ∷ "state" ∷ "error" ∷ [])
        root)
      _
      λ _. read_on (completion_state (item "state" root)) _ λ state.
        read (optional_text "error" (item "error" root)) _ λ error error_ok.
          read (failure_has_error state error) _ λ has_error has_error_ok.
            read (identifier "session_id" (item "session_id" root)) _ λ session_id session_id_ok.
              read (identifier "action_id" (item "action_id" root)) _ λ action_id action_id_ok.
                read_on (resource_from (item "resource" root)) _ λ _.
                  read (positive "lease_token" (item "lease_token" root)) _
                    λ lease_token lease_token_ok. (
                      identifier-IsIdentifier "session_id" (item "session_id" root) session_id
                          session_id_ok,
                      identifier-IsIdentifier "action_id" (item "action_id" root) action_id
                          action_id_ok,
                      positive-<ℤ "lease_token" (item "lease_token" root) lease_token
                          lease_token_ok,
                      optional_text-IsText "error" (item "error" root) error error_ok,
                      failed-has-error state error has_error has_error_ok,
                    )

audio_chunk-Sound : (root : Dict String Value) → Sound (decode_audio_chunk root)
unfolding decode_audio_chunk
audio_chunk-Sound root =
    read_on
      (exact
        ("session_id" ∷ "sequence" ∷ "captured_monotonic_ns" ∷ "sample_rate" ∷ "channels"
          ∷ "encoding" ∷ "pcm" ∷ [])
        root)
      _
      λ _. read_on (check (equals_number 16000 (item "sample_rate" root)) bad_audio_format) _ λ _.
        read_on (check (equals_number 1 (item "channels" root)) bad_audio_format) _ λ _.
          read_on (check (equals_text "pcm_s16le" (item "encoding" root)) bad_audio_format) _ λ _.
            read (identifier "session_id" (item "session_id" root)) _ λ session_id session_id_ok.
              read (nonnegative "sequence" (item "sequence" root)) _ λ sequence sequence_ok.
                read (nonnegative "captured_monotonic_ns" (item "captured_monotonic_ns" root)) _
                  λ captured_monotonic_ns captured_monotonic_ns_ok.
                    read_on (from_base64 (item "pcm" root)) _ λ bytes.
                      read (audio_pcm bytes) _ λ pcm pcm_ok.
                        let (full, short, whole) = audio_pcm-bounds bytes pcm pcm_ok in
                        (
                          identifier-IsIdentifier "session_id" (item "session_id" root) session_id
                              session_id_ok,
                          nonnegative-≤ℤ "sequence" (item "sequence" root) sequence sequence_ok,
                          nonnegative-≤ℤ "captured_monotonic_ns" (item "captured_monotonic_ns" root)
                              captured_monotonic_ns captured_monotonic_ns_ok,
                          full,
                          short,
                          whole,
                        )

screenshot_request-Sound : (root : Dict String Value) → Sound (decode_screenshot_request root)
unfolding decode_screenshot_request
screenshot_request-Sound root = read_on (exact ("request_id" ∷ "session_id" ∷ []) root) _ λ _.
    read (identifier "request_id" (item "request_id" root)) _ λ request_id request_id_ok.
      read (identifier "session_id" (item "session_id" root)) _ λ session_id session_id_ok. (
        identifier-IsIdentifier "request_id" (item "request_id" root) request_id request_id_ok,
        identifier-IsIdentifier "session_id" (item "session_id" root) session_id session_id_ok,
      )

screenshot_response-Sound : (root : Dict String Value) → Sound (decode_screenshot_response root)
unfolding decode_screenshot_response
screenshot_response-Sound root =
    read_on (exact ("request_id" ∷ "session_id" ∷ "jpeg" ∷ "error" ∷ []) root) _ λ _.
      read (optional_text "error" (item "error" root)) _ λ error error_ok.
        read (jpeg_from (item "jpeg" root) error) _ λ jpeg jpeg_ok.
          read (identifier "request_id" (item "request_id" root)) _ λ request_id request_id_ok.
            read (identifier "session_id" (item "session_id" root)) _ λ session_id session_id_ok. (
              identifier-IsIdentifier "request_id" (item "request_id" root) request_id
                  request_id_ok,
              identifier-IsIdentifier "session_id" (item "session_id" root) session_id
                  session_id_ok,
              jpeg_from-IsPicture (item "jpeg" root) error jpeg jpeg_ok,
              optional_text-IsText "error" (item "error" root) error error_ok,
            )

heartbeat-Sound : (root : Dict String Value) → Sound (decode_heartbeat root)
unfolding decode_heartbeat
heartbeat-Sound root = read_on (exact ("session_id" ∷ "sender" ∷ "sequence" ∷ []) root) _ λ _.
    read (heartbeat_sender (item "sender" root)) _ λ sender sender_ok.
      read (identifier "session_id" (item "session_id" root)) _ λ session_id session_id_ok.
        read (nonnegative "sequence" (item "sequence" root)) _ λ sequence sequence_ok. (
          identifier-IsIdentifier "session_id" (item "session_id" root) session_id session_id_ok,
          sender-known (item "sender" root) sender sender_ok,
          nonnegative-≤ℤ "sequence" (item "sequence" root) sequence sequence_ok,
        )

typed-Sound : (root : Dict String Value) (v : Value) → Sound (decode_typed root v)
unfolding decode_typed
typed-Sound root (text t) = elim (Bool-cases (t == "hello")) [
  | inl same ↦ rw same (hello-Sound root)
  | inr other ↦ rw other (elim (Bool-cases (t == "session.open")) [
    | inl same ↦ rw same (session_open-Sound root)
    | inr other ↦ rw other (elim (Bool-cases (t == "output.authorize")) [
      | inl same ↦ rw same (authorize-Sound root)
      | inr other ↦ rw other (elim (Bool-cases (t == "output.neutralize")) [
        | inl same ↦ rw same (output_neutralize-Sound root)
        | inr other ↦ rw other (elim (Bool-cases (t == "output.data")) [
          | inl same ↦ rw same (output_data-Sound root)
          | inr other ↦ rw other (elim (Bool-cases (t == "ack")) [
            | inl same ↦ rw same (ack-Sound root)
            | inr other ↦ rw other (elim (Bool-cases (t == "output.completed")) [
              | inl same ↦ rw same (output_completed-Sound root)
              | inr other ↦ rw other (elim (Bool-cases (t == "audio.chunk")) [
                | inl same ↦ rw same (audio_chunk-Sound root)
                | inr other ↦ rw other (elim (Bool-cases (t == "screenshot.request")) [
                  | inl same ↦ rw same (screenshot_request-Sound root)
                  | inr other ↦ rw other (elim (Bool-cases (t == "screenshot.response")) [
                    | inl same ↦ rw same (screenshot_response-Sound root)
                    | inr other ↦ rw other (elim (Bool-cases (t == "heartbeat")) [
                      | inl same ↦ rw same (heartbeat-Sound root)
                      | inr other ↦ rw other (tt)
                    ])
                  ])
                ])
              ])
            ])
          ])
        ])
      ])
    ])
  ])
]
typed-Sound root null = tt
typed-Sound root (boolean b) = tt
typed-Sound root (integer n) = tt
typed-Sound root (real n) = tt
typed-Sound root (array vs) = tt
typed-Sound root (object fs) = tt

root-Sound : (v : Value) → Sound (decode_root v)
unfolding decode_root
root-Sound v = read_on (mapping v) _ λ fs.
    read_on (plain_integer "version" (item "version" (fields fs))) _ λ version.
      read_on (check (eqb_ℤ version (pos protocol_version)) bad_version) _
        λ _. typed-Sound (fields fs) (item "type" (fields fs))

raw-Sound : (raw : Raw) → Sound (decode_message raw)
unfolding decode_message
raw-Sound raw = read_on (check (not (ltb max_message_bytes raw.size)) too_large) _ λ _.
    read_on (check raw.is_utf8 not_utf8) _
      λ _. read_on (elim raw.json [ none ↦ err not_json | some v ↦ ok v ]) _ λ v. root-Sound v

-- A message that was read keeps the limits of its type: its identifiers are stripped, not blank, on one
-- line and at most 128 characters, its other texts stripped, not blank and at most 1000, its tokens
-- positive (that of a neutralize may be 0), its sequence numbers and times of capture not negative, its
-- lifetime positive, its samples whole and at most 131072 bytes, its picture at most 8388608 bytes,
-- exactly one of picture and error is there, a failed completion has an error, and a heartbeat is from
-- one of the two machines.
pub decode_message-IsSound : (raw : Raw) (m : Message) → decode_message raw ≡ ok m → IsSound m
decode_message-IsSound raw m e = subst Sound e (raw-Sound raw)
